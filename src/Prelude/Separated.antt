-- ===== src/Prelude/Separated.antt =====
-- Texts joined by a separator that does not occur in them can be taken apart again.
use Prim.Native.Nat.{ℕ}
use mathlib.Core.Path.{◌≡◌, refl}
use mathlib.Core.Logic.{◌≢◌}
use mathlib.Core.List.{[], ◌∷◌, ◌++◌}
use cfactory.Prelude.Texts.{Text}
use cfactory.Prelude.Lists.{All}

module _ (sep : ℕ) where
  abbrev Without : Text → Type 0
  Without = All (λ c. c ≢ sep)

  -- The first part and the rest are determined by the whole.
  pub first_part :
      (a b s t : Text) → Without a → Without b → a ++ sep ∷ s ≡ b ++ sep ∷ t → (a ≡ b) × (s ≡ t)
  first_part [] [] s t ha hb e = (refl, cc)
  first_part [] (y ∷ b) s t ha hb e = absurd (hb.0 (cc))
  first_part (x ∷ a) [] s t ha hb e = absurd (ha.0 (cc))
  first_part (x ∷ a) (y ∷ b) s t ha hb e =
      let (same, rest) = first_part a b s t ha.1 hb.1 (cc) in (cc, rest)

  no_separator : (a s t : Text) → Without t → t ≡ a ++ sep ∷ s → ⊥
  no_separator [] s [] ht e = cc
  no_separator [] s (y ∷ t) ht e = ht.0 (cc)
  no_separator (x ∷ a) s [] ht e = cc
  no_separator (x ∷ a) s (y ∷ t) ht e = no_separator a s t ht.1 (cc)

  -- The part behind the last separator is determined by the whole.
  pub last_part : (a b s t : Text) → Without s → Without t → a ++ sep ∷ s ≡ b ++ sep ∷ t → s ≡ t
  last_part [] [] s t hs ht e = cc
  last_part [] (y ∷ b) s t hs ht e = absurd (no_separator b t s hs (cc))
  last_part (x ∷ a) [] s t hs ht e = absurd (no_separator a s t ht (cc))
  last_part (x ∷ a) (y ∷ b) s t hs ht e = last_part a b s t hs ht (cc)
