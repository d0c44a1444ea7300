-- ===== src/Prelude/Decimal.antt =====
-- `str(n)` of a natural number, and reading it back.
use Prim.Native.Nat.{ℕ, zero, suc, ◌+◌, ◌-◌, ◌*◌, ◌/◌, ◌%◌, ◌≤◌, ◌<◌}
use mathlib.Core.Path.{◌≡◌, refl, ap, sym, ◌∙◌}
use mathlib.Core.List.{[], ◌∷◌, ◌++◌}
use native.Mathlib.Omega.{arith}
use cfactory.Prelude.Tests.{ltb, if◌then◌else◌, Bool-cases}
use mathlib.Core.Logic.{inl, inr}
use cfactory.Prelude.Texts.{Text}
use cfactory.Prelude.Lists.{All, All-append}

-- The digits of `n`, the last one last; the fuel bounds their number.
digits : ℕ → ℕ → Text
digits zero n = []
digits (suc f) n =
    let rest = digits f (n / 10) in if ltb n 10 then (n + 48) ∷ [] else rest ++ (n % 10 + 48) ∷ []

-- A number has at most as many digits as its value plus one.
unfoldable pub str_int : ℕ → Text
unfolding digits
str_int n = digits (suc n) n

unfoldable pub value_from : ℕ → Text → ℕ
value_from acc [] = acc
value_from acc (c ∷ s) = value_from (acc * 10 + (c - 48)) s

value_from-append :
    (acc : ℕ) (s : Text) (c : ℕ) → value_from acc (s ++ c ∷ []) ≡ value_from acc s * 10 + (c - 48)
unfolding value_from
value_from-append acc [] c = refl
value_from-append acc (d ∷ s) c = value_from-append (acc * 10 + (d - 48)) s c

value_from-digits : (f n : ℕ) → n < f → value_from 0 (digits f n) ≡ n
unfolding digits value_from
value_from-digits zero n h = absurd (omega arith)
value_from-digits (suc f) n h = elim (Bool-cases (ltb n 10)) [
  | inl small ↦ rw small (omega arith)
  | inr large ↦ rw large (
      rw (value_from-append 0 (digits f (n / 10)) (n % 10 + 48))
        (rw (value_from-digits f (n / 10) (ground arith)) (omega arith)))
]

-- A number is told from its text.
pub str_int-injective : (m n : ℕ) → str_int m ≡ str_int n → m ≡ n
unfolding str_int
str_int-injective m n e =
    sym (value_from-digits (suc m) m (omega arith))
    ∙ (ap (value_from 0) e ∙ value_from-digits (suc n) n (omega arith))

digits-IsDigit : (f n : ℕ) → All (λ c. 48 ≤ c) (digits f n)
unfolding digits
digits-IsDigit zero n = tt
digits-IsDigit (suc f) n = elim (Bool-cases (ltb n 10)) [
  | inl small ↦ rw small (omega arith, tt)
  | inr large ↦
      rw large (All-append _ (digits f (n / 10)) _ (digits-IsDigit f (n / 10)) (omega arith, tt))
]

pub str_int-IsDigit : (n : ℕ) → All (λ c. 48 ≤ c) (str_int n)
unfolding str_int
str_int-IsDigit n = digits-IsDigit (suc n) n

digits-le : (f n : ℕ) → All (λ c. c ≤ 57) (digits f n)
unfolding digits
digits-le zero n = tt
digits-le (suc f) n = elim (Bool-cases (ltb n 10)) [
  | inl small ↦ rw small (ground (arith, small), tt)
  | inr large ↦
      rw large (All-append _ (digits f (n / 10)) _ (digits-le f (n / 10)) (omega arith, tt))
]

pub str_int-le : (n : ℕ) → All (λ c. c ≤ 57) (str_int n)
unfolding str_int
str_int-le n = digits-le (suc n) n

pub value_from-str_int : (n : ℕ) → value_from 0 (str_int n) ≡ n
unfolding str_int
value_from-str_int n = value_from-digits (suc n) n (omega arith)

snoc-ne : (s : Text) (c : ℕ) → s ++ c ∷ [] ≡ [] → ⊥
snoc-ne [] c e = cc
snoc-ne (d ∷ s) c e = cc

digits-ne : (f n : ℕ) → digits (suc f) n ≡ [] → ⊥
unfolding digits
digits-ne f n e = elim (Bool-cases (ltb n 10)) [
  | inl small ↦ one_digit (rw small at e)
  | inr large ↦ snoc-ne (digits f (n / 10)) (n % 10 + 48) (rw large at e)
]
  where
    one_digit : (n + 48) ∷ [] ≡ [] → ⊥
    one_digit h = cc

pub str_int-ne : (n : ℕ) → str_int n ≡ [] → ⊥
unfolding str_int
str_int-ne n = digits-ne n n
