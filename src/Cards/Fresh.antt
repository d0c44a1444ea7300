-- ===== src/Cards/Fresh.antt =====
-- The keys that `create` of apps/backend/cfactory/cards.py assigns.
use cfactory.Prelude.{
  ℕ, ◌+◌, ◌≤◌, ◌≡◌, ◌≢◌, refl, sym, ap, ◌∙◌, inl, inr, ◌⊎◌, true, false, not, Option, none, some,
  List, [], ◌∷◌, ◌++◌, map, Text, text_eq, text_eq_iff, text_eq_sound, arith, any, or_false,
  keep_if, Bool-cases,
}
use cfactory.Prelude.Decimal.{str_int, value_from}
use cfactory.Prelude.Results.{Result, ok, raise, value_error, >>=-eq-ok}
use cfactory.WorkItem.Table.{Tenant, write_tenant}
use cfactory.Cards.{CardRow, CardCreate}
use cfactory.Cards.Keys.{
  is_decimal, is_digits, int_of, behind_prefix, number_behind, key_prefix, key_number, raised_to,
  highest_from, next_key,
}
use cfactory.Cards.Numbers.{key_number-str_int}
use cfactory.Cards.Board.{in_scope, holds_key, holds_ref, insert_row, row_of, key_for, create}

-- Every number among the keys is at most the bound.
abbrev AllBelow : ℕ → List Text → Type 0
AllBelow bound [] = Unit
AllBelow bound (key ∷ keys) =
    ((n : ℕ) → key_number key ≡ ok (some n) → n ≤ bound) × AllBelow bound keys

raised_to-le :
    (highest : ℕ) (o : Option ℕ) (h : ℕ)
    → raised_to highest o ≤ h
    → (highest ≤ h) × ((m : ℕ) → o ≡ some m → m ≤ h)
raised_to-le highest none h above = (above, λ m e. absurd (cc))
raised_to-le highest (some n) h above = (ground (arith, above), λ m e. ground (arith, above, e))

highest_from_bounds :
    (highest : ℕ) (keys : List Text) (h : ℕ)
    → highest_from highest keys ≡ ok h
    → (highest ≤ h) × AllBelow h keys
unfolding highest_from
highest_from_bounds highest [] h e = (let same : highest ≡ h = cc in omega (arith, same), tt)
highest_from_bounds highest (key ∷ keys) h e =
    let (n, read, rest) =
      >>=-eq-ok (key_number key) (λ n. highest_from (raised_to highest n) keys) e in
    let (above, below) = highest_from_bounds (raised_to highest n) keys h rest in
    let (higher, numbered) = raised_to-le highest n h above in
    (higher, (λ m r. numbered m (cc), below))

below-ne :
    (h : ℕ) (keys : List Text)
    → AllBelow h keys
    → any (text_eq (key_prefix ++ str_int (h + 1))) keys ≡ false
below-ne h [] b = refl
below-ne h (key ∷ keys) b = elim (Bool-cases (text_eq (key_prefix ++ str_int (h + 1)) key)) [
  | inl same ↦ absurd (too_high (text_eq_sound (key_prefix ++ str_int (h + 1)) key same))
  | inr other ↦ rw other (below-ne h keys b.1)
]
  where
    too_high : key_prefix ++ str_int (h + 1) ≡ key → ⊥
    too_high e =
        let bound : h + 1 ≤ h = b.0 (h + 1) (rw (← e) (key_number-str_int (h + 1))) in
        omega (arith, bound)

-- The key that is assigned is none of those in scope.
next_key_fresh :
    (keys : List Text) (key : Text) → next_key keys ≡ ok key → any (text_eq key) keys ≡ false
unfolding next_key
next_key_fresh keys key e =
    let (h, read, e') =
      >>=-eq-ok (highest_from 0 keys) (λ highest. ok (key_prefix ++ str_int (highest + 1))) e in
    let same : key_prefix ++ str_int (h + 1) ≡ key = cc in
    rw (← same) (below-ne h keys (highest_from_bounds 0 keys h read).1)

abbrev Reads : Result (Option ℕ) → Type 0
Reads r = (r ≡ raise value_error) ⊎ ((n : Option ℕ) × (r ≡ ok n))

int_of-cases : (s : Text) → (int_of s ≡ raise value_error) ⊎ ((n : ℕ) × (int_of s ≡ ok n))
unfolding int_of
int_of-cases s = elim (Bool-cases (any (λ d. not (is_decimal d)) s)) [
  | inl odd ↦ inl (rw odd refl)
  | inr numeral ↦ inr (value_from 0 s, rw numeral refl)
]

number_behind-cases : (o : Option Text) → Reads (number_behind o)
number_behind-cases none = inr (none, refl)
number_behind-cases (some s) = elim (Bool-cases (is_digits s)) [
  | inr other ↦ inr (none, rw other refl)
  | inl digits ↦ elim (int_of-cases s) [
    | inl odd ↦ inl (rw digits (rw odd refl))
    | inr (n, reads) ↦ inr (some n, rw digits (rw reads refl))
  ]
]

key_number-cases : (key : Text) → Reads (key_number key)
unfolding key_number
key_number-cases key = number_behind-cases (behind_prefix key_prefix key)

highest_from_unreadable :
    (highest : ℕ) (keys : List Text) (key : Text)
    → any (text_eq key) keys ≡ true
    → key_number key ≡ raise value_error
    → highest_from highest keys ≡ raise value_error
unfolding highest_from
highest_from_unreadable highest [] key h bad = cc
highest_from_unreadable highest (k ∷ keys) key h bad = elim (key_number-cases k) [
  | inl stops ↦ rw stops refl
  | inr (n, reads) ↦
      rw reads (highest_from_unreadable (raised_to highest n) keys key (later n reads) bad)
]
  where
    apart : {n : Option ℕ} → ok n ≡ raise value_error → ⊥
    apart e = cc

    later : (n : Option ℕ) → key_number k ≡ ok n → any (text_eq key) keys ≡ true
    later n reads = elim (Bool-cases (text_eq key k)) [
      | inl same ↦
          absurd (apart (sym reads ∙ (ap key_number (sym (text_eq_sound key k same)) ∙ bad)))
      | inr other ↦ (rw other at h)
    ]

-- The rows with the tenant's own stamp are in scope.
own_in_scope :
    (tenant : Tenant) (r : CardRow)
    → tenant ≢ some []
    → text_eq r.tenant_id (write_tenant tenant) ≡ true
    → in_scope tenant r ≡ true
unfolding in_scope
own_in_scope none r named h = refl
own_in_scope (some []) r named h = absurd (named refl)
own_in_scope (some (c ∷ t)) r named h = h

key_apart :
    (tenant : Tenant) (key : Text) (r : CardRow)
    → tenant ≢ some []
    → (in_scope tenant r ≡ false) ⊎ (text_eq key r.card_key ≡ false)
    → holds_key (write_tenant tenant) key r ≡ false
unfolding holds_key
key_apart tenant key r named (inl outside) = ground (arith, own_in_scope tenant r named)
key_apart tenant key r named (inr differs) =
    ground (arith, text_eq_iff key r.card_key, text_eq_iff r.card_key key)

free_keys :
    (tenant : Tenant) (key : Text) (rows : List CardRow)
    → tenant ≢ some []
    → any (text_eq key) (map (λ r. r.card_key) (keep_if (in_scope tenant) rows)) ≡ false
    → any (holds_key (write_tenant tenant) key) rows ≡ false
free_keys tenant key [] named h = refl
free_keys tenant key (r ∷ rows) named h = elim (Bool-cases (in_scope tenant r)) [
  | inr outside ↦
      rw (key_apart tenant key r named (inl outside))
        (free_keys tenant key rows named (rw outside at h))
  | inl inside ↦
      let (differs, rest) =
        or_false (text_eq key r.card_key)
          (any (text_eq key) (map (λ x. x.card_key) (keep_if (in_scope tenant) rows)))
          (rw inside at h) in
      rw (key_apart tenant key r named (inr differs)) (free_keys tenant key rows named rest)
]

module _ (tenant : Tenant) (now : ℕ) (body : CardCreate) (rows : List CardRow)
    (unnamed : body.card_key ≡ none) where
  abbrev keys_in_scope : List Text
  keys_in_scope = map (λ r. r.card_key) (keep_if (in_scope tenant) rows)

  -- A card that names no key is refused with a `ValueError` where some key in scope is the prefix and
  -- digits that `int` does not read, as a superscript is.
  pub create_unreadable_key :
      (key : Text)
      → any (text_eq key) keys_in_scope ≡ true
      → key_number key ≡ raise value_error
      → create tenant now body rows ≡ raise value_error
  unfolding create key_for next_key
  create_unreadable_key key h bad =
      rw unnamed (rw (highest_from_unreadable 0 keys_in_scope key h bad) refl)

  -- An assigned key is free: a card that names no key, and whose issue no card of the tenant has, is
  -- stored under the key that was assigned.
  pub create_assigned :
      (key : Text)
      → tenant ≢ some []
      → next_key keys_in_scope ≡ ok key
      → any (holds_ref (write_tenant tenant) body.issue_ref) rows ≡ false
      → create tenant now body rows
        ≡ ok (
          rows ++ row_of (write_tenant tenant) now key body ∷ [],
          row_of (write_tenant tenant) now key body,
        )
  unfolding create key_for insert_row row_of
  create_assigned key named next unclaimed = rw unnamed (
      rw next (
        rw (free_keys tenant key rows named (next_key_fresh keys_in_scope key next))
          (rw unclaimed refl)))
