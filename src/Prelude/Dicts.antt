-- ===== src/Prelude/Dicts.antt =====
-- A `dict` with text keys, in the order of insertion.
use mathlib.Core.Path.{◌≡◌, refl}
use mathlib.Core.Option.{Option, none, some}
use mathlib.Core.List.{List, [], ◌∷◌}
use native.Mathlib.Omega.{arith}
use cfactory.Prelude.Tests.{if◌then◌else◌}
use cfactory.Prelude.Texts.{Text, text_eq, text_eq_iff}

abbrev pub Dict {ℓ} : Type ℓ → Type ℓ
Dict V = List (Text × V)

module _ {ℓ} {V : Type ℓ} where
  -- `d.get(key)`
  unfoldable pub dict_get : Dict V → Text → Option V
  dict_get [] key = none
  dict_get ((k, v) ∷ d) key = let rest = dict_get d key in if text_eq k key then some v else rest

  -- `d[key] = v`: a key that is there keeps its place
  unfoldable pub dict_set : Dict V → Text → V → Dict V
  dict_set [] key v = (key, v) ∷ []
  dict_set ((k, w) ∷ d) key v =
      let rest = dict_set d key v in if text_eq k key then (k, v) ∷ d else (k, w) ∷ rest

  -- `d.values()`
  unfoldable pub dict_values : Dict V → List V
  dict_values [] = []
  dict_values ((_, v) ∷ d) = v ∷ dict_values d

  pub get-set :
      (d : Dict V) (key j : Text) (v : V)
      → dict_get (dict_set d key v) j ≡ (if text_eq key j then some v else dict_get d j)
  unfolding dict_get dict_set
  get-set [] key j v = refl
  get-set ((k, w) ∷ d) key j v =
      ground (arith, get-set d key j v, text_eq_iff k key, text_eq_iff key j, text_eq_iff k j)
