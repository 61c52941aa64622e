-- ===== src/Prelude/Keys.antt =====
-- Maps whose keys are all different: what association lists that stand for Go maps are.
use Prim.Native.Nat.{◌+◌}
use mathlib.Core.Path.{◌≡◌, refl}
use mathlib.Core.Bool.{Bool, true, false, not, ◌&&◌}
use mathlib.Core.Option.{Option, none, some}
use mathlib.Core.List.{[], ◌∷◌}
use native.Mathlib.Omega.{arith}
use ocp_offline.Prelude.Tests.{if◌then◌else◌, ◌==◌}
use ocp_offline.Prelude.Texts.{Text, text_beq_iff, text_eq}
use ocp_offline.Prelude.Maps.{Map, insert, lookup, delete, keys, lookup-insert, lookup-delete}
use ocp_offline.Prelude.Sets.{occurrences}

abbrev pub present {ℓ} : {V : Type ℓ} → Option V → Bool
present none = false
present (some v) = true

module _ {ℓ} {V : Type ℓ} where
  -- A key occurs once if it is found, and not at all otherwise.
  abbrev pub IsMap : Map V → Type 0
  IsMap m = (key : Text) → occurrences key (keys m) ≡ (if present (lookup key m) then 1 else 0)

  keys-insert :
      (key other : Text) (new : V) (m : Map V)
      → occurrences other (keys (insert key new m))
        ≡ occurrences other (keys m)
          + (if key == other && not (present (lookup key m)) then 1 else 0)
  unfolding insert lookup
  keys-insert key other new [] = ground arith
  keys-insert key other new ((at, old) ∷ m) = ground (
    arith,
    text_beq_iff key other,
    text_beq_iff at key,
    text_beq_iff at other,
    keys-insert key other new m,
  )

  keys-delete :
      (key other : Text) (m : Map V)
      → occurrences other (keys (delete key m))
        ≡ (if key == other then 0 else occurrences other (keys m))
  unfolding delete
  keys-delete key other [] = ground arith
  keys-delete key other ((at, old) ∷ m) = ground (
    arith,
    text_beq_iff key other,
    text_beq_iff at key,
    text_beq_iff at other,
    keys-delete key other m,
  )

  pub insert-IsMap : (key : Text) (new : V) (m : Map V) → IsMap m → IsMap (insert key new m)
  insert-IsMap key new m h other = ground (
    arith,
    text_beq_iff key other,
    keys-insert key other new m,
    lookup-insert key other new m,
    h other,
  )

  pub delete-IsMap : (key : Text) (m : Map V) → IsMap m → IsMap (delete key m)
  delete-IsMap key m h other =
      ground
        (arith, text_beq_iff key other, keys-delete key other m, lookup-delete key other m, h other)

pub IsMap-nil {ℓ} : (V : Type ℓ) → IsMap {V = V} []
unfolding lookup
IsMap-nil V key = refl
