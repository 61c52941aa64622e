-- ===== src/Safety/Path/Split.antt =====
-- strings.Split and strings.Join at one separator byte.
use ocp_offline.Prelude.{
  ℕ, Text, ◌≡◌, ◌≢◌, refl, List, [], ◌∷◌, ◌++◌, arith, ◌==◌, nat_eq, if◌then◌else◌, All, Bool-cases,
  inl, inr,
}

-- The byte goes in front of the first part.
unfoldable pub extend : ℕ → List Text → List Text
extend c [] = (c ∷ []) ∷ []
extend c (p ∷ ps) = (c ∷ p) ∷ ps

unfoldable pub split : ℕ → Text → List Text
unfolding extend
split sep [] = [] ∷ []
split sep (c ∷ s) = let rest = split sep s in if c == sep then [] ∷ rest else extend c rest

unfoldable pub join_with : ℕ → List Text → Text
join_with sep [] = []
join_with sep (p ∷ []) = p
join_with sep (p ∷ q ∷ ps) = p ++ sep ∷ join_with sep (q ∷ ps)

abbrev pub Lacks : ℕ → Text → Type 0
Lacks sep = All (λ c. c ≢ sep)

extend-Lacks :
    (sep c : ℕ) (ps : List Text) → c ≢ sep → All (Lacks sep) ps → All (Lacks sep) (extend c ps)
unfolding extend
extend-Lacks sep c [] h hs = ((h, tt), tt)
extend-Lacks sep c (p ∷ ps) h hs = ((h, hs.0), hs.1)

-- No part of a split holds the separator.
pub split-Lacks : (sep : ℕ) (s : Text) → All (Lacks sep) (split sep s)
unfolding split
split-Lacks sep [] = (tt, tt)
split-Lacks sep (c ∷ s) = elim (Bool-cases (c == sep)) [
  | inl e ↦ rw e (tt, split-Lacks sep s)
  | inr n ↦ rw n (extend-Lacks sep c (split sep s) (ground arith) (split-Lacks sep s))
]

split_plain : (sep : ℕ) (p : Text) → Lacks sep p → split sep p ≡ p ∷ []
unfolding split
split_plain sep [] h = refl
split_plain sep (c ∷ p) h = ground (arith, split_plain sep p h.1)

pub split-append : (sep : ℕ) (p s : Text) → Lacks sep p → split sep (p ++ sep ∷ s) ≡ p ∷ split sep s
unfolding split
split-append sep [] s h = ground arith
split-append sep (c ∷ p) s h = ground (arith, split-append sep p s h.1)

-- Splitting a join gives the parts back.
pub split-join_with :
    (sep : ℕ) (p : Text) (ps : List Text)
    → All (Lacks sep) (p ∷ ps)
    → split sep (join_with sep (p ∷ ps)) ≡ p ∷ ps
unfolding join_with
split-join_with sep p [] h = split_plain sep p h.0
split-join_with sep p (q ∷ ps) h =
    ground (arith, split-append sep p (join_with sep (q ∷ ps)) h.0, split-join_with sep q ps h.1)

extend-append : (c : ℕ) (ps qs : List Text) → ps ≢ [] → extend c (ps ++ qs) ≡ extend c ps ++ qs
unfolding extend
extend-append c [] qs h = absurd (h refl)
extend-append c (p ∷ ps) qs h = refl

extend-ne-nil : (c : ℕ) (ps : List Text) → extend c ps ≢ []
unfolding extend
extend-ne-nil c [] h = cc
extend-ne-nil c (p ∷ ps) h = cc

pub split-ne-nil : (sep : ℕ) (s : Text) → split sep s ≢ []
unfolding split
split-ne-nil sep [] h = cc
split-ne-nil sep (c ∷ s) h = ground (arith, extend-ne-nil c (split sep s))

-- A split of two texts that a separator joins is the two splits.
pub split-append_sep :
    (sep : ℕ) (s t : Text) → split sep (s ++ sep ∷ t) ≡ split sep s ++ split sep t
unfolding split
split-append_sep sep [] t = ground arith
split-append_sep sep (c ∷ s) t = ground (
  arith,
  split-append_sep sep s t,
  extend-append c (split sep s) (split sep t),
  split-ne-nil sep s,
)
