-- ===== src/Auth/Keys.antt =====
-- The key table of auth.py: what `parse_api_keys` builds, and the comparison loop of `scopes_for`
-- against a plain look-up.
use cfactory.Prelude.{
  ◌≡◌, ◌≢◌, refl, inl, inr, Bool, true, false, Option, none, some, List, [], ◌∷◌, arith, ap, ◌∙◌,
  if◌then◌else◌, Text, text_eq, text_eq_iff, is_empty, Bool-cases, is_some,
}
use cfactory.Prelude.Results.{ok, raise, type_error}
use cfactory.Prelude.Strings.{strip, partition, split_on}
use cfactory.Auth.{
  Keys, Scopes, insert_key, parse_entry, parse_entries, parse_api_keys, is_ascii, match_keys,
  scopes_for,
}

-- `keys.get(key)`
unfoldable pub lookup : Text → Keys → Option Scopes
lookup key [] = none
lookup key ((k, scopes) ∷ keys) =
    let rest = lookup key keys in if text_eq key k then some scopes else rest

-- Every key stands once, and none is empty.
abbrev pub Distinct : Keys → Type 0
Distinct [] = Unit
Distinct ((k, scopes) ∷ keys) = (lookup k keys ≡ none) × (is_empty k ≡ false) × Distinct keys

abbrev pub AllAscii : Keys → Type 0
AllAscii [] = Unit
AllAscii ((k, scopes) ∷ keys) = (is_ascii k ≡ true) × AllAscii keys

lookup-insert_key :
    (j key : Text) (scopes : Scopes) (keys : Keys)
    → lookup j (insert_key key scopes keys) ≡ (if text_eq j key then some scopes else lookup j keys)
unfolding lookup insert_key
lookup-insert_key j key scopes [] = refl
lookup-insert_key j key scopes ((k, s) ∷ keys) = ground (
  arith,
  lookup-insert_key j key scopes keys,
  text_eq_iff j key,
  text_eq_iff j k,
  text_eq_iff k key,
)

insert_key-Distinct :
    (key : Text) (scopes : Scopes) (keys : Keys)
    → is_empty key ≡ false
    → Distinct keys
    → Distinct (insert_key key scopes keys)
unfolding insert_key
insert_key-Distinct key scopes [] h d = (unfold lookup in refl, h, tt)
insert_key-Distinct key scopes ((k, s) ∷ keys) h d = elim (Bool-cases (text_eq k key)) [
  | inl same ↦ rw same d
  | inr other ↦ rw other (
    rw (lookup-insert_key k key scopes keys, other) d.0,
    d.1,
    insert_key-Distinct key scopes keys h d.2,
  )
]

Distinct-if :
    (b : Bool) (keys others : Keys)
    → Distinct keys
    → Distinct others
    → Distinct (if b then keys else others)
Distinct-if true keys others d e = d
Distinct-if false keys others d e = e

if_some_self : (o : Option Scopes) → (if is_some o then o else none) ≡ o
if_some_self none = refl
if_some_self (some s) = refl

parse_entry-Distinct : (keys : Keys) (e : Text) → Distinct keys → Distinct (parse_entry keys e)
unfolding parse_entry
parse_entry-Distinct keys e d = elim (Bool-cases (is_empty (strip e))) [
  | inl blank ↦ rw blank d
  | inr _ ↦ elim (Bool-cases (is_empty (strip (partition b':' (strip e)).0))) [
    | inl no_key ↦ rw no_key (Distinct-if (is_empty (strip e)) keys keys d d)
    | inr key ↦ rw key (
        Distinct-if (is_empty (strip e)) keys _ d
          (insert_key-Distinct (strip (partition b':' (strip e)).0) _ keys key d))
  ]
]

parse_entries-Distinct :
    (keys : Keys) (es : List Text) → Distinct keys → Distinct (parse_entries keys es)
unfolding parse_entries
parse_entries-Distinct keys [] d = d
parse_entries-Distinct keys (e ∷ es) d =
    parse_entries-Distinct (parse_entry keys e) es (parse_entry-Distinct keys e d)

-- Whatever the setting's text, the parsed table has each key once and no empty key.
pub parse_api_keys-Distinct : (raw : Option Text) → Distinct (parse_api_keys raw)
unfolding parse_api_keys
parse_api_keys-Distinct none = tt
parse_api_keys-Distinct (some raw) =
    Distinct-if (is_empty raw) [] _ tt (parse_entries-Distinct [] (split_on b';' raw) tt)

match_keys-eq-lookup :
    (key : Text) (keys : Keys) (matched : Option Scopes)
    → is_ascii key ≡ true
    → is_empty key ≡ false
    → AllAscii keys
    → Distinct keys
    → match_keys key keys matched
      ≡ ok (if is_some (lookup key keys) then lookup key keys else matched)
unfolding match_keys lookup
match_keys-eq-lookup key [] matched a n asc d = refl
match_keys-eq-lookup (c ∷ key) ((k ∷ known, scopes) ∷ keys) matched a n asc d = ground (
  arith,
  text_eq_iff (c ∷ key) (k ∷ known),
  match_keys-eq-lookup (c ∷ key) keys (some scopes) a n asc.1 d.2,
  match_keys-eq-lookup (c ∷ key) keys matched a n asc.1 d.2,
)
match_keys-eq-lookup [] _ matched a n asc d = cc
match_keys-eq-lookup _ (([], scopes) ∷ keys) matched a n asc d = ground arith

-- Over ASCII, the loop that compares a presented key with every configured one gives what a
-- look-up of that key in the parsed table gives.
pub scopes_for-eq-lookup :
    (raw : Option Text) (dev_open : Bool) (key : Text)
    → AllAscii (parse_api_keys raw)
    → is_ascii key ≡ true
    → is_empty key ≡ false
    → scopes_for (record { keys = parse_api_keys raw; dev_open = dev_open }) (some key)
      ≡ ok (lookup key (parse_api_keys raw))
unfolding scopes_for
scopes_for-eq-lookup raw dev_open key asc a n =
    match_keys-eq-lookup key (parse_api_keys raw) none a n asc (parse_api_keys-Distinct raw)
    ∙ ap ok (if_some_self (lookup key (parse_api_keys raw)))

match_keys_non_ascii :
    (key : Text) (k : Text) (scopes : Scopes) (keys : Keys) (matched : Option Scopes)
    → is_ascii key ≡ false
    → is_empty k ≡ false
    → match_keys key ((k, scopes) ∷ keys) matched ≡ raise type_error
unfolding match_keys
match_keys_non_ascii (c ∷ key) (d ∷ k) scopes keys matched a n = ground arith
match_keys_non_ascii [] k scopes keys matched a n = cc
match_keys_non_ascii _ [] scopes keys matched a n = cc

-- Where any key is configured, a presented key with a character beyond ASCII is no refusal: the
-- comparison raises `TypeError`.
pub scopes_for_non_ascii :
    (raw : Option Text) (dev_open : Bool) (key : Text)
    → parse_api_keys raw ≢ []
    → is_ascii key ≡ false
    → scopes_for (record { keys = parse_api_keys raw; dev_open = dev_open }) (some key)
      ≡ raise type_error
unfolding scopes_for
scopes_for_non_ascii raw dev_open key h a =
    non_ascii_table (parse_api_keys raw) (parse_api_keys-Distinct raw) h
  where
    non_ascii_table :
        (keys : Keys) → Distinct keys → keys ≢ [] → match_keys key keys none ≡ raise type_error
    non_ascii_table [] d h = absurd (h refl)
    non_ascii_table ((k, scopes) ∷ keys) d h = match_keys_non_ascii key k scopes keys none a d.1
