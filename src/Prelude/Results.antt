-- ===== src/Prelude/Results.antt =====
-- Code that may raise: the exceptions that the modelled functions raise or let through.
use Prim.Native.Nat.{ℕ}
use mathlib.Core.Path.{◌≡◌, refl}
use mathlib.Core.Logic.{◌⊎◌, inl, inr}
use mathlib.Core.Option.{Option}
use cfactory.Prelude.Texts.{Text}

pub data Exception : Type 0 where
  type_error value_error integrity_error : Exception
  -- `HTTPException`, by its status code
  http : ℕ → Exception
  -- `DuplicateCardKeyError` and `DuplicateIssueRefError`
  duplicate_card_key : Text → Exception
  duplicate_issue_ref : Option Text → Exception
  -- `GitResourceNotFoundError`, and `httpx.HTTPError`
  resource_not_found http_error : Exception

pub data Result {ℓ} (A : Type ℓ) : Type ℓ where
  ok : A → Result A
  raise : Exception → Result A

module _ {ℓ κ} {A : Type ℓ} {B : Type κ} where
  infixl 5 ◌>>=◌
  -- An exception ends the rest of the block.
  abbrev pub ◌>>=◌ : Result A → (A → Result B) → Result B
  ◌>>=◌ (raise x) rest = raise x
  ◌>>=◌ (ok value) rest = rest value

  -- A block that returned has returned at its first step too.
  pub >>=-eq-ok :
      (first : Result A) (rest : A → Result B) {b : B}
      → first >>= rest ≡ ok b
      → (value : A) × (first ≡ ok value) × (rest value ≡ ok b)
  >>=-eq-ok (raise x) rest h = cc
  >>=-eq-ok (ok value) rest h = (value, refl, h)

module _ {ℓ} {A : Type ℓ} where
  pub Result-cases :
      (r : Result A) → ((value : A) × (r ≡ ok value)) ⊎ ((e : Exception) × (r ≡ raise e))
  Result-cases (ok value) = inl (value, refl)
  Result-cases (raise e) = inr (e, refl)
