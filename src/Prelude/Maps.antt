-- ===== src/Prelude/Maps.antt =====
-- Go maps with string keys as association lists. Iteration order is the list's.
use mathlib.Core.Path.{◌≡◌, refl}
use mathlib.Core.Option.{Option, none, some}
use mathlib.Core.List.{List, [], ◌∷◌}
use native.Mathlib.Omega.{arith}
use ocp_offline.Prelude.Tests.{if◌then◌else◌, ◌==◌}
use ocp_offline.Prelude.Texts.{Text, text_beq_iff, text_eq}

abbrev pub Map {ℓ} : Type ℓ → Type ℓ
Map V = List (Text × V)

module _ {ℓ} {V : Type ℓ} where
  -- m[k] = v
  unfoldable pub insert : Text → V → Map V → Map V
  insert key new [] = (key, new) ∷ []
  insert key new ((at, old) ∷ entries) =
      if at == key then (at, new) ∷ entries else (at, old) ∷ insert key new entries

  -- m[k], with the second result
  unfoldable pub lookup : Text → Map V → Option V
  lookup key [] = none
  lookup key ((at, value) ∷ entries) = if at == key then some value else lookup key entries

  -- delete(m, k)
  unfoldable pub delete : Text → Map V → Map V
  delete key [] = []
  delete key ((at, old) ∷ entries) =
      let rest = delete key entries in if at == key then rest else (at, old) ∷ rest

  -- The keys, in the order of the list.
  abbrev pub keys : Map V → List Text
  keys [] = []
  keys ((at, value) ∷ entries) = at ∷ keys entries

  pub lookup-delete :
      (key other : Text) (entries : Map V)
      → lookup other (delete key entries) ≡ (if key == other then none else lookup other entries)
  unfolding lookup delete
  lookup-delete key other [] = ground arith
  lookup-delete key other ((at, old) ∷ entries) = ground (
    arith,
    text_beq_iff key other,
    text_beq_iff at key,
    text_beq_iff at other,
    lookup-delete key other entries,
  )

  -- A write shows at its key only.
  pub lookup-insert :
      (key other : Text) (new : V) (entries : Map V)
      → lookup other (insert key new entries)
        ≡ (if key == other then some new else lookup other entries)
  unfolding lookup insert
  lookup-insert key other new [] = refl
  lookup-insert key other new ((at, old) ∷ entries) = ground (
    arith,
    text_beq_iff key other,
    text_beq_iff at key,
    text_beq_iff at other,
    lookup-insert key other new entries,
  )
