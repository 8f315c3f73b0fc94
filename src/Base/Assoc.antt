-- ===== src/Base/Assoc.antt =====
-- A Go map with string keys as an association list: a write puts its entry in front, and a read
-- takes the first one.
use mathlib.Core.Path.{◌≡◌, refl}
use mathlib.Core.Option.{Option, none, some}
use mathlib.Core.List.{List, [], ◌∷◌}
use proxops.Base.Tests.{if◌then◌else◌}
use proxops.Base.Bytes.{Text, text_eq}

module _ {ℓ} {V : Type ℓ} where
  -- v, ok := m[k]
  unfoldable pub lookup : Text → List (Text × V) → Option V
  lookup k [] = none
  lookup k ((j, v) ∷ m) = if text_eq j k then some v else lookup k m

  -- m[k], with the zero value of a missing key
  unfoldable pub get_or : V → Text → List (Text × V) → V
  unfolding lookup
  get_or z k m = elim (lookup k m) [ none ↦ z | some v ↦ v ]

  pub lookup-insert :
      (k j : Text) (v : V) (m : List (Text × V))
      → lookup j ((k, v) ∷ m) ≡ (if text_eq k j then some v else lookup j m)
  unfolding lookup
  lookup-insert k j v m = refl
