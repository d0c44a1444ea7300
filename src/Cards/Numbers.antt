-- ===== src/Cards/Numbers.antt =====
-- Keys and issue references written and read back: cards.py and card_intake.py.
use cfactory.Prelude.{
  ℕ, ◌≤◌, ◌≡◌, ◌≢◌, refl, ap, ◌∙◌, true, false, ◌||◌, not, none, some, [], ◌∷◌, ◌++◌, ◌==◌, Text,
  arith, any, All,
}
use cfactory.Prelude.Decimal.{
  str_int, value_from, str_int-IsDigit, str_int-le, value_from-str_int, str_int-ne,
}
use cfactory.Prelude.Results.{ok}
use cfactory.Prelude.Strings.{strip, lstrip, rstrip, is_space}
use cfactory.Cards.Keys.{
  is_decimal, is_superscript, is_digits, int_of, behind_prefix, key_prefix, number_behind,
  key_number, rsplit_hash, or_none, issue_project, issue_number,
}

-- Only the characters "0" to "9"
abbrev pub IsNumeral : Text → Type 0
IsNumeral = All (λ c. is_decimal c ≡ true)

IsNumeral-of_bounds : (s : Text) → All (λ c. 48 ≤ c) s → All (λ c. c ≤ 57) s → IsNumeral s
IsNumeral-of_bounds [] lo hi = tt
IsNumeral-of_bounds (c ∷ s) lo hi = (ground (arith, lo.0, hi.0), IsNumeral-of_bounds s lo.1 hi.1)

pub str_int-IsNumeral : (n : ℕ) → IsNumeral (str_int n)
str_int-IsNumeral n = IsNumeral-of_bounds (str_int n) (str_int-IsDigit n) (str_int-le n)

no_odd_digit : (s : Text) → IsNumeral s → any (λ d. not (is_decimal d)) s ≡ false
no_odd_digit [] h = refl
no_odd_digit (c ∷ s) h = rw h.0 (no_odd_digit s h.1)

no_other : (s : Text) → IsNumeral s → any (λ d. not (is_decimal d || is_superscript d)) s ≡ false
no_other [] h = refl
no_other (c ∷ s) h = rw h.0 (no_other s h.1)

number_behind_numeral :
    (t : Text) → (t ≡ [] → ⊥) → IsNumeral t → number_behind (some t) ≡ ok (some (value_from 0 t))
unfolding is_digits int_of
number_behind_numeral [] ne h = absurd (ne refl)
number_behind_numeral (c ∷ s) ne h = rw (no_other (c ∷ s) h) (rw (no_odd_digit (c ∷ s) h) refl)

pub number_behind-str_int : (n : ℕ) → number_behind (some (str_int n)) ≡ ok (some n)
number_behind-str_int n =
    number_behind_numeral (str_int n) (str_int-ne n) (str_int-IsNumeral n)
    ∙ ap (λ v. ok (some v)) (value_from-str_int n)

-- The number of an assigned key is read back from it.
pub key_number-str_int : (n : ℕ) → key_number (key_prefix ++ str_int n) ≡ ok (some n)
unfolding key_number behind_prefix
key_number-str_int n = number_behind-str_int n

rsplit_hash-none : (s : Text) → All (λ c. (c == b'#') ≡ false) s → rsplit_hash s ≡ none
unfolding rsplit_hash
rsplit_hash-none [] h = refl
rsplit_hash-none (c ∷ s) h = rw (rsplit_hash-none s h.1) (rw h.0 refl)

rsplit_hash-append :
    (p s : Text) → All (λ c. (c == b'#') ≡ false) s → rsplit_hash (p ++ b'#' ∷ s) ≡ some (p, s)
unfolding rsplit_hash
rsplit_hash-append [] s h = rw (rsplit_hash-none s h) refl
rsplit_hash-append (c ∷ p) s h = rw (rsplit_hash-append p s h) refl

numeral_no_hash : (s : Text) → IsNumeral s → All (λ c. (c == b'#') ≡ false) s
numeral_no_hash [] h = tt
numeral_no_hash (c ∷ s) h = (ground (arith, h.0), numeral_no_hash s h.1)

numeral_no_space : (c : ℕ) → is_decimal c ≡ true → is_space c ≡ false
numeral_no_space c h = ground (arith, h)

rstrip_numeral : (s : Text) → IsNumeral s → rstrip s ≡ s
unfolding rstrip
rstrip_numeral [] h = refl
rstrip_numeral (c ∷ s) h = rw (rstrip_numeral s h.1) (rw (numeral_no_space c h.0) (ground arith))

strip_numeral : (s : Text) → IsNumeral s → strip s ≡ s
unfolding strip lstrip rstrip
strip_numeral [] h = refl
strip_numeral (c ∷ s) h = rw (numeral_no_space c h.0) (rstrip_numeral (c ∷ s) h)

-- An issue reference is written and read back: of a project's path, a "#" and a number, the one half
-- gives the path and the other the number, if the path is not empty and has no white space at its
-- ends. The path may hold a "#" of its own.
pub issue_ref_halves :
    (project : Text) (n : ℕ)
    → project ≢ []
    → strip project ≡ project
    → (issue_project (some (project ++ b'#' ∷ str_int n)) ≡ some project)
      × (issue_number (some (project ++ b'#' ∷ str_int n)) ≡ ok (some n))
unfolding issue_project issue_number
issue_ref_halves project n named trimmed = (
  rw (split project n, issue_project) (rw trimmed (nonempty project named)),
  rw (split project n, issue_number)
      (rw (strip_numeral (str_int n) (str_int-IsNumeral n)) (number_behind-str_int n)),
)
  where
    split : (p : Text) (m : ℕ) → rsplit_hash (p ++ b'#' ∷ str_int m) ≡ some (p, str_int m)
    split p m = rsplit_hash-append p (str_int m) (numeral_no_hash (str_int m) (str_int-IsNumeral m))

    nonempty : (p : Text) → p ≢ [] → or_none p ≡ some p
    nonempty [] ne = absurd (ne refl)
    nonempty (c ∷ p) ne = refl
