-- ===== src/Auth.antt =====
-- apps/backend/cfactory/auth.py: API keys, their scopes, and the decision on a request.
-- `sha256` of the library is the parameter `fingerprint`, the hex digest of a text.
pub mod Keys
pub mod Decisions
mod Examples
use cfactory.Prelude.{
  ℕ, ◌-◌, ◌≡◌, Bool, true, false, ◌&&◌, ◌||◌, not, Option, none, some, List, [], ◌∷◌, ◌++◌, leb,
  ◌==◌, if◌then◌else◌, Text, codes, text_eq, mem_text, truthy, is_empty, take, length, is_some,
  keep_if, map,
}
use cfactory.Prelude.Results.{Result, ok, raise, type_error, http, ◌>>=◌}
use cfactory.Prelude.Strings.{strip, lower, split_on, partition}

abbrev pub read_scope : Text
read_scope = codes "read"

abbrev pub write_scope : Text
write_scope = codes "write"

abbrev pub unattributed_actor : Text
unattributed_actor = codes "unattributed"

abbrev is_alphanumeric : ℕ → Bool
is_alphanumeric c =
    (leb b'0' c && leb c b'9') || (leb b'A' c && leb c b'Z') || (leb b'a' c && leb c b'z')

-- `[A-Za-z0-9]{n,}$`; the `$` of a Python pattern also matches before a final newline
alphanumeric_tail : ℕ → Text → Bool
alphanumeric_tail n [] = n == 0
alphanumeric_tail n (c ∷ s) =
    let rest = alphanumeric_tail (n - 1) s in
    if is_alphanumeric c then rest else n == 0 && c == 10 && is_empty s

-- `KEY_SHAPED`
unfoldable pub key_shaped : Text → Bool
unfolding alphanumeric_tail
key_shaped (a ∷ b ∷ c ∷ u ∷ rest) =
    (text_eq (a ∷ b ∷ c ∷ []) (codes "acw") || text_eq (a ∷ b ∷ c ∷ []) (codes "cfk"))
    && u == b'_'
    && alphanumeric_tail 16 rest
key_shaped _ = false

-- `key_actor`, over the hex digest of SHA-256
unfoldable pub key_actor : (Text → Text) → Text → Text
key_actor fingerprint key = unattributed_actor ++ (codes ":key-" ++ take 12 (fingerprint key))

-- `hmac.compare_digest` on two `str`: a text with a character beyond ASCII is a `TypeError`.
abbrev pub is_ascii : Text → Bool
is_ascii [] = true
is_ascii (c ∷ s) = leb c 127 && is_ascii s

compare_digest : Option Text → Option Text → Result Bool
compare_digest (some a) (some b) =
    if is_ascii a && is_ascii b then ok (text_eq a b) else raise type_error
compare_digest _ _ = ok false

unfoldable pub secret_matches : Option Text → Option Text → Result Bool
unfolding compare_digest
secret_matches candidate expected =
    if not (truthy candidate) || not (truthy expected)
    then ok false
    else compare_digest candidate expected

abbrev pub Scopes : Type 0
Scopes = List Text

-- A `dict` from keys to their scopes, in the order of insertion.
abbrev pub Keys : Type 0
Keys = List (Text × Scopes)

-- `keys[key] = scopes`: a key that is there keeps its place
unfoldable pub insert_key : Text → Scopes → Keys → Keys
insert_key key scopes [] = (key, scopes) ∷ []
insert_key key scopes ((k, s) ∷ keys) =
    let rest = insert_key key scopes keys in
    if text_eq k key then (k, scopes) ∷ keys else (k, s) ∷ rest

parse_scopes : Text → Scopes
parse_scopes scope_part = keep_if (λ s. not (is_empty s)) (map strip (split_on b',' scope_part))

-- The body of the loop of `parse_api_keys`; the warning about a key's shape changes nothing.
parse_entry : Keys → Text → Keys
unfolding parse_scopes
parse_entry keys raw_entry =
    let entry = strip raw_entry in
    let (before, after) = partition b':' entry in
    let key = strip before in
    if is_empty entry
    then keys
    else if is_empty key
    then keys
    else insert_key key (parse_scopes after) keys

parse_entries : Keys → List Text → Keys
unfolding parse_entry
parse_entries keys [] = keys
parse_entries keys (e ∷ es) = parse_entries (parse_entry keys e) es

unfoldable pub parse_api_keys : Option Text → Keys
unfolding parse_entries
parse_api_keys none = []
parse_api_keys (some raw) = if is_empty raw then [] else parse_entries [] (split_on b';' raw)

pub record KeyStore : Type 0 where
  pub keys : Keys
  pub dev_open : Bool

-- `replace`
unfoldable pub replace : KeyStore → Keys → KeyStore
replace store keys = record store { keys = keys }

unfoldable pub configured : KeyStore → Bool
configured store = not (is_empty store.keys)

-- the property `open`
unfoldable pub is_open : KeyStore → Bool
is_open store = is_empty store.keys && store.dev_open

-- The loop of `scopes_for` compares every key; the last one that matches wins.
unfoldable pub match_keys : Text → Keys → Option Scopes → Result (Option Scopes)
unfolding secret_matches
match_keys key [] matched = ok matched
match_keys key ((known, scopes) ∷ keys) matched = do
  same ← secret_matches (some key) (some known)
  match_keys key keys (if same then some scopes else matched)

unfoldable pub scopes_for : KeyStore → Option Text → Result (Option Scopes)
unfolding match_keys
scopes_for store none = ok none
scopes_for store (some key) = match_keys key store.keys none

first_with : Text → Keys → Option Text
first_with required [] = none
first_with required ((key, scopes) ∷ keys) =
    let rest = first_with required keys in if mem_text required scopes then some key else rest

first_key : Keys → Option Text
first_key [] = none
first_key ((key, _) ∷ _) = some key

abbrev or_key : Option Text → Option Text → Option Text
or_key none other = other
or_key (some key) _ = some key

unfoldable pub preferred_key : KeyStore → Option Text
unfolding first_with first_key
preferred_key store =
    or_key (first_with write_scope store.keys)
      (or_key (first_with read_scope store.keys) (first_key store.keys))

-- The decision on a known scope set: 401 for none, 403 where the scope is lacking.
unfoldable pub decide_scope : Text → Option Scopes → Result (Unit {0})
decide_scope scope none = raise (http 401)
decide_scope scope (some scopes) = if mem_text scope scopes then ok tt else raise (http 403)

unfoldable pub authorize : KeyStore → Option Text → Text → Result (Unit {0})
unfolding configured scopes_for decide_scope
authorize store key scope =
    if not (configured store)
    then (if store.dev_open then ok tt else raise (http 401))
    else (do scopes ← scopes_for store key; decide_scope scope scopes)

bearer_token : Option Text → Option Text
bearer_token none = none
bearer_token (some authorization) =
    let (scheme, rest) = partition b' ' authorization in
    let token = strip rest in
    if text_eq (lower scheme) (codes "bearer") && not (is_empty token) then some token else none

header_token : Option Text → Option Text
header_token none = none
header_token (some x_api_key) =
    let token = strip x_api_key in if is_empty token then none else some token

unfoldable pub extract_key : Option Text → Option Text → Option Text
unfolding bearer_token header_token
extract_key authorization x_api_key = or_key (bearer_token authorization) (header_token x_api_key)

unfoldable pub authorize_headers : KeyStore → Option Text → Option Text → Text → Result (Unit {0})
unfolding is_open extract_key authorize
authorize_headers store authorization x_api_key scope =
    if is_open store then ok tt else authorize store (extract_key authorization x_api_key) scope

-- `require_scope`: the dependency's value is the key, `none` in dev-open mode.
unfoldable pub require_scope : KeyStore → Text → Option Text → Option Text → Result (Option Text)
unfolding is_open extract_key authorize
require_scope store scope authorization x_api_key =
    let key = extract_key authorization x_api_key in
    if is_open store then ok none else (do _ ← authorize store key scope; ok key)
