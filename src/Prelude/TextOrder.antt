-- ===== src/Prelude/TextOrder.antt =====
-- The byte order of texts is one to sort by.
use mathlib.Core.Path.{◌≡◌, refl}
use mathlib.Core.Bool.{true, false}
use mathlib.Core.List.{[], ◌∷◌}
use native.Mathlib.Omega.{arith}
use ocp_offline.Prelude.Texts.{Text}
use ocp_offline.Prelude.Sort.{text_lt}
use ocp_offline.Prelude.Sorters.{StrictWeakOrder}

text_lt-asym : (s t : Text) → text_lt s t ≡ true → text_lt t s ≡ false
unfolding text_lt
text_lt-asym [] [] h = refl
text_lt-asym [] (d ∷ t) h = refl
text_lt-asym (c ∷ s) [] h = cc
text_lt-asym (c ∷ s) (d ∷ t) h = ground (arith, text_lt-asym s t)

text_lt-weak : (s t u : Text) → text_lt s t ≡ false → text_lt t u ≡ false → text_lt s u ≡ false
unfolding text_lt
text_lt-weak [] [] u h k = k
text_lt-weak [] (d ∷ t) u h k = absurd (cc h)
text_lt-weak (c ∷ s) [] [] h k = refl
text_lt-weak (c ∷ s) [] (e ∷ u) h k = absurd (cc k)
text_lt-weak (c ∷ s) (d ∷ t) [] h k = refl
text_lt-weak (c ∷ s) (d ∷ t) (e ∷ u) h k = ground (arith, text_lt-weak s t u)

pub text_lt-StrictWeakOrder : StrictWeakOrder text_lt
text_lt-StrictWeakOrder = record { asym = text_lt-asym; weak = text_lt-weak }
