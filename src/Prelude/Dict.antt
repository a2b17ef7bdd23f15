-- ===== src/Prelude/Dict.antt =====
-- Go maps with string keys, as association lists.
use mathlib.Core.Path.{◌≡◌}
use Prim.Native.String.{String}
use mathlib.Core.Option.{Option, none, some}
use mathlib.Core.List.{List, [], ◌∷◌}
use native.Mathlib.Omega.{arith}
use text.Mathlib.Text.{◌==◌}
use text.Mathlib.TextEquality.{eq_iff}
use sei_k8s_controller.Prelude.Tests.{if◌then◌else◌}

abbrev pub Dict {ℓ} : Type ℓ → Type ℓ
Dict V = List (String × V)

-- Keys are compared as strings; an assignment drops the older entry and puts the new one in front,
-- since Go's maps have no order.
module _ {ℓ} {V : Type ℓ} where
  unfoldable pub lookup : String → Dict V → Option V
  lookup key [] = none
  lookup key ((name, val) ∷ others) = if name == key then some val else lookup key others

  unfoldable pub erase : String → Dict V → Dict V
  erase key [] = []
  erase key ((name, val) ∷ others) =
      let kept = erase key others in if name == key then kept else (name, val) ∷ kept

  unfoldable pub insert : String → V → Dict V → Dict V
  unfolding erase
  insert key val dict = (key, val) ∷ erase key dict

  pub lookup-erase :
      (key other : String) (dict : Dict V)
      → lookup other (erase key dict) ≡ (if key == other then none else lookup other dict)
  unfolding erase lookup
  lookup-erase key other [] = ground arith
  lookup-erase key other ((name, val) ∷ dict) =
      ground
        (arith, eq_iff name other, eq_iff key other, eq_iff name key, lookup-erase key other dict)

  pub lookup-insert :
      (key other : String) (val : V) (dict : Dict V)
      → lookup other (insert key val dict) ≡ (if key == other then some val else lookup other dict)
  unfolding insert lookup
  lookup-insert key other val dict = ground (arith, lookup-erase key other dict)
