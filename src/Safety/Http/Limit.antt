-- ===== src/Safety/Http/Limit.antt =====
-- What ReadAllWithLimit returns.
use ocp_offline.Prelude.{
  ℕ, zero, suc, [], ◌∷◌, ap, lt→ltb, ◌-◌, ◌+◌, ◌<◌, ◌≤◌, ◌^◌, Text, true, false, ok, err, ◌≡◌, ◌↔◌,
  refl, ◌∙◌, sym, arith, ltb, length, take, length-take, pos, to_int64, ok-injective, Bool-cases,
  inl, inr,
}
use ocp_offline.Safety.Http.{Stream, read_failed, body_too_large, read_all_with_limit}

take_all : (n : ℕ) (s : Text) → length s ≤ n → take n s ≡ s
take_all zero [] h = refl
take_all zero (c ∷ s) h = absurd (omega (arith, h))
take_all (suc n) [] h = refl
take_all (suc n) (c ∷ s) h = ap (◌∷◌ c) (take_all n s (omega (arith, h)))

next_limit : (n : ℕ) → n < 2 ^ 63 - 1 → to_int64 (n + 1) ≡ pos (n + 1)
unfolding to_int64
next_limit n h = ground (arith, h)

module _ (s : Stream) (n : ℕ) (p : 0 < n) (h : n < 2 ^ 63 - 1) where
  within : length s.bytes ≤ n → s.fails ≡ false → read_all_with_limit s (pos n) ≡ ok s.bytes
  unfolding read_all_with_limit
  within le f =
      rw (lt→ltb 0 n p, next_limit n h, take_all (n + 1) s.bytes (omega (arith, le)))
        (ground (arith, le, f))

  failing : length s.bytes ≤ n → s.fails ≡ true → read_all_with_limit s (pos n) ≡ err read_failed
  unfolding read_all_with_limit
  failing le f = rw (lt→ltb 0 n p, next_limit n h) (ground (arith, le, f))

  above : n < length s.bytes → read_all_with_limit s (pos n) ≡ err body_too_large
  unfolding read_all_with_limit
  above lt = rw (lt→ltb 0 n p, next_limit n h) (ground (arith, lt, length-take (n + 1) s.bytes))

  -- ReadAllWithLimit succeeds exactly if the reader ends without an error and within the limit, and then
  -- gives everything that it delivers, for a positive limit below the largest int64.
  pub read_all_with_limit_iff :
      (content : Text)
      → (read_all_with_limit s (pos n) ≡ ok content)
        ↔ ((length s.bytes ≤ n) × (s.fails ≡ false) × (content ≡ s.bytes))
  read_all_with_limit_iff content = elim (Bool-cases (ltb n (length s.bytes))) [
    | inl l ↦ (
      (λ k. absurd (cc (above (ground (arith, l)), k))),
      (λ (le, f, e). absurd (ground (arith, l, le))),
    )
    | inr g ↦ elim (Bool-cases s.fails) [
      | inl f ↦ (
        (λ k. absurd (cc (failing (ground (arith, g)) f, k))),
        (λ (le, u, e). absurd (cc (f, u))),
      )
      | inr f ↦
          let le : length s.bytes ≤ n = ground (arith, g) in
          (
            (λ k. (le, f, ok-injective (sym k ∙ within le f))),
            (λ (le', u, e). within le f ∙ ap (λ c. ok c) (sym e)),
          )
    ]
  ]
