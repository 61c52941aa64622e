-- ===== src/Prelude/Sets.antt =====
-- A `map[T]bool` that only grows, and how often an element occurs.
use Prim.Native.Nat.{ℕ, ◌+◌, ◌<◌}
use mathlib.Core.Path.{◌≡◌, refl, sym, ◌∙◌}
use mathlib.Core.Bool.{Bool, true, false, ◌||◌}
use mathlib.Core.List.{List, [], ◌∷◌, foldr, Perm}
use mathlib.Core.List.Perm
use native.Mathlib.Nat.{ℕ_set}
use native.Mathlib.Omega.{arith}
use ocp_offline.Prelude.Tests.{Eq, if◌then◌else◌, ◌==◌}
use ocp_offline.Prelude.Lists.{sum_by}

module _ {ℓ} {A : Type ℓ} ⦃eq : Eq A⦄ where
  -- seen[x]
  unfoldable pub has : A → List A → Bool
  has x [] = false
  has x (y ∷ ys) = let rest = has x ys in y == x || rest

  abbrev pub occurrences : A → List A → ℕ
  occurrences x = sum_by (λ y. if y == x then 1 else 0)

  pub has-occurrences : (x : A) (ys : List A) → has x ys ≡ false → occurrences x ys ≡ 0
  unfolding has
  has-occurrences x [] h = refl
  has-occurrences x (y ∷ ys) h = ground (arith, has-occurrences x ys)

  pub occurrences-has : (x : A) (ys : List A) → has x ys ≡ true → 0 < occurrences x ys
  unfolding has
  occurrences-has x [] h = cc
  occurrences-has x (y ∷ ys) h = ground (arith, occurrences-has x ys)

module _ {ℓ} {A : Type ℓ} (f : A → ℕ) where
  sum_by-foldr : (xs : List A) → sum_by f xs ≡ foldr (λ x n. f x + n) 0 xs
  sum_by-foldr [] = refl
  sum_by-foldr (x ∷ xs) = rw (sum_by-foldr xs) refl

  -- A sum does not depend on the order.
  pub sum_by-perm : {xs ys : List A} → Perm xs ys → sum_by f xs ≡ sum_by f ys
  sum_by-perm {xs} {ys} p =
      sum_by-foldr xs
      ∙ Perm.foldr-eq ℕ_set (λ x n. f x + n) (λ a b n. omega arith) p 0
      ∙ sym (sum_by-foldr ys)
