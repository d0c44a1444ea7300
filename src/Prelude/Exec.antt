-- ===== src/Prelude/Exec.antt =====
-- Code that changes a state and may raise. What was changed before an exception stays changed.
use mathlib.Core.Path.{◌≡◌, refl}
use cfactory.Prelude.Results.{Result, ok, raise}

abbrev pub Exec : Type 0 → Type 0 → Type 0
Exec S A = S → Result A × S

module _ {S A B : Type 0} where
  abbrev pub continue : Result A → (A → Exec S B) → Exec S B
  continue (ok a) rest s = rest a s
  continue (raise e) rest s = (raise e, s)

  infixl 5 ◌>>=◌
  abbrev pub ◌>>=◌ : Exec S A → (A → Exec S B) → Exec S B
  ◌>>=◌ first rest s = let (r, s') = first s in continue r rest s'

module _ {S A : Type 0} where
  abbrev pub pure : A → Exec S A
  pure a s = (ok a, s)

  abbrev pub lift : Result A → Exec S A
  lift r s = (r, s)

module _ {S A B : Type 0} where
  -- A last step that only makes the reply leaves the state.
  pub continue-pure :
      (f : A → B) (outcome : Result A × S)
      → (continue outcome.0 (λ a. pure (f a)) outcome.1).1 ≡ outcome.1
  continue-pure f (ok a, s) = refl
  continue-pure f (raise e, s) = refl
