-- ===== src/Prelude/Sorters.antt =====
-- sort.Slice: any rearrangement that sorts by a strict weak order.
use mathlib.Core.Path.{◌≡◌}
use mathlib.Core.Logic.{inl, inr}
use mathlib.Core.Bool.{Bool, true, false}
use mathlib.Core.List.{List, [], ◌∷◌, Perm}
use ocp_offline.Prelude.Tests.{Bool-cases}
use ocp_offline.Prelude.Lists.{All}
use ocp_offline.Prelude.Sort.{insert_sorted, sort_by, sort_by-perm, IsSorted}

pub record StrictWeakOrder {ℓ} {A : Type ℓ} (before : A → A → Bool) : Type ℓ where
  pub asym : (x y : A) → before x y ≡ true → before y x ≡ false
  pub weak : (x y z : A) → before x y ≡ false → before y z ≡ false → before x z ≡ false

-- What package sort documents of Slice: the elements are permuted, and sorted where the test is a
-- strict weak order. Nothing is said about the order of equal elements.
pub record Sorter : Type 1 where
  pub run : {A : Type 0} → (A → A → Bool) → List A → List A
  pub permutes : {A : Type 0} (before : A → A → Bool) (xs : List A) → Perm (run before xs) xs
  pub sorts :
      {A : Type 0} (before : A → A → Bool)
      → StrictWeakOrder before
      → (xs : List A) → IsSorted before (run before xs)

module _ {ℓ} {A : Type ℓ} (before : A → A → Bool) (order : StrictWeakOrder before) where
  -- What does not go before `y` does not go before an element in front of `y` either.
  not_before_front :
      (x y : A) (ys : List A)
      → before x y ≡ true
      → All (λ z. before z y ≡ false) ys
      → All (λ z. before z x ≡ false) ys
  not_before_front x y [] h hs = tt
  not_before_front x y (z ∷ ys) h (p, hs) =
      (order.weak z y x p (order.asym x y h), not_before_front x y ys h hs)

  All-insert_sorted :
      (P : A → Type 0) (x : A) (ys : List A) → P x → All P ys → All P (insert_sorted before x ys)
  unfolding insert_sorted
  All-insert_sorted P x [] p ps = (p, tt)
  All-insert_sorted P x (y ∷ ys) p (q, ps) = elim (Bool-cases (before x y)) [
    | inl e ↦ rw e (p, (q, ps))
    | inr e ↦ rw e (q, All-insert_sorted P x ys p ps)
  ]

  insert_sorted-IsSorted :
      (x : A) (ys : List A) → IsSorted before ys → IsSorted before (insert_sorted before x ys)
  unfolding insert_sorted
  insert_sorted-IsSorted x [] h = (tt, tt)
  insert_sorted-IsSorted x (y ∷ ys) (h, hs) = elim (Bool-cases (before x y)) [
    | inl e ↦ rw e ((order.asym x y e, not_before_front x y ys e h), (h, hs))
    | inr e ↦
        rw e (All-insert_sorted (λ z. before z y ≡ false) x ys e h, insert_sorted-IsSorted x ys hs)
  ]

  pub sort_by-IsSorted : (xs : List A) → IsSorted before (sort_by before xs)
  unfolding sort_by
  sort_by-IsSorted [] = tt
  sort_by-IsSorted (x ∷ xs) = insert_sorted-IsSorted x (sort_by before xs) (sort_by-IsSorted xs)

-- Insertion sort is one such sort.
abbrev pub insertion : Sorter
insertion = record {
  run = λ before xs. sort_by before xs;
  permutes = λ before xs. sort_by-perm before xs;
  sorts = λ before order xs. sort_by-IsSorted before order xs;
}
