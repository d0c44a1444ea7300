-- ===== src/Cards/Keys.antt =====
-- The keys of cards and the references of issues: `_KEY_PREFIX`, `_next_card_key` and
-- `_issue_project` of apps/backend/cfactory/cards.py, and `_issue_number_payload` of
-- apps/backend/cfactory/card_intake.py. Digits are those of Latin-1: `str.isdigit` holds of the
-- superscripts, which `int` refuses.
use cfactory.Prelude.{
  ℕ, ◌+◌, Bool, false, ◌&&◌, ◌||◌, not, Option, none, some, List, [], ◌∷◌, ◌++◌, ◌==◌, leb, ltb,
  if◌then◌else◌, Text, codes, any,
}
use cfactory.Prelude.Decimal.{str_int, value_from}
use cfactory.Prelude.Results.{Result, ok, raise, value_error, ◌>>=◌}
use cfactory.Prelude.Strings.{strip}

abbrev pub is_decimal : ℕ → Bool
is_decimal c = leb 48 c && leb c 57

abbrev pub is_superscript : ℕ → Bool
is_superscript c = c == 0xb2 || (c == 0xb3 || c == 0xb9)

-- `s.isdigit()`
unfoldable pub is_digits : Text → Bool
is_digits [] = false
is_digits (c ∷ s) = not (any (λ d. not (is_decimal d || is_superscript d)) (c ∷ s))

-- `int(s)` of a text of digits
unfoldable pub int_of : Text → Result ℕ
int_of s = if any (λ d. not (is_decimal d)) s then raise value_error else ok (value_from 0 s)

-- `key.startswith(_KEY_PREFIX)`, with what stands behind the prefix
unfoldable pub behind_prefix : Text → Text → Option Text
behind_prefix [] s = some s
behind_prefix (p ∷ ps) [] = none
behind_prefix (p ∷ ps) (c ∷ s) = let rest = behind_prefix ps s in if p == c then rest else none

abbrev pub key_prefix : Text
key_prefix = codes "FCT-"

abbrev pub max : ℕ → ℕ → ℕ
max a b = if ltb a b then b else a

abbrev pub number_behind : Option Text → Result (Option ℕ)
number_behind none = ok none
number_behind (some suffix) =
    let number = int_of suffix in if is_digits suffix then (do n ← number; ok (some n)) else ok none

-- The number of a key, if it is one of the assigned form
unfoldable pub key_number : Text → Result (Option ℕ)
unfolding behind_prefix is_digits int_of
key_number key = number_behind (behind_prefix key_prefix key)

abbrev pub raised_to : ℕ → Option ℕ → ℕ
raised_to highest none = highest
raised_to highest (some n) = max highest n

-- The loop of `_next_card_key`
unfoldable pub highest_from : ℕ → List Text → Result ℕ
unfolding key_number
highest_from highest [] = ok highest
highest_from highest (key ∷ keys) = do n ← key_number key; highest_from (raised_to highest n) keys

-- `_next_card_key`, over the keys in scope
unfoldable pub next_key : List Text → Result Text
unfolding highest_from
next_key keys = do highest ← highest_from 0 keys; ok (key_prefix ++ str_int (highest + 1))

-- `s.rsplit("#", 1)`, where there is a "#"
unfoldable pub rsplit_hash : Text → Option (Text × Text)
rsplit_hash [] = none
rsplit_hash (c ∷ s) = elim (rsplit_hash s) [
  | some (front, back) ↦ some (c ∷ front, back)
  | none ↦ if c == b'#' then some ([], s) else none
]

abbrev pub or_none : Text → Option Text
or_none [] = none
or_none (c ∷ s) = some (c ∷ s)

-- `_issue_project`
unfoldable pub issue_project : Option Text → Option Text
unfolding rsplit_hash strip
issue_project none = none
issue_project (some ref) = elim (rsplit_hash ref) [
  | none ↦ none
  | some (front, back) ↦ or_none (strip front)
]

-- `_issue_number_payload`
unfoldable pub issue_number : Option Text → Result (Option ℕ)
unfolding rsplit_hash strip is_digits int_of
issue_number none = ok none
issue_number (some ref) = elim (rsplit_hash ref) [
  | none ↦ ok none
  | some (front, back) ↦ number_behind (some (strip back))
]
