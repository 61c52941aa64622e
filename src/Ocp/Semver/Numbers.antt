-- ===== src/Ocp/Semver/Numbers.antt =====
-- How versions are read: three numbers, and a patch that is no number.
use ocp_offline.Prelude.{
  ℕ, ◌≤◌, Text, Bool, ltb, map, nat_eq, false, List, [], ◌∷◌, ◌++◌, some, ◌≡◌, refl, ap, arith,
  ◌==◌, if◌then◌else◌, All, pos, syntax_error, parse_int, atoi_or_zero, IsDigit, value, max_int64,
  parse_int-digits,
}
use ocp_offline.Safety.Path.Split.{Lacks}
use ocp_offline.Ocp.Semver.Order.{eq_int_refl}
use ocp_offline.Ocp.Semver.{cut, split_n, semver_of, parse_semver, semver_less}

pub cut-append : (sep : ℕ) (a s : Text) → Lacks sep a → cut sep (a ++ sep ∷ s) ≡ some (a, s)
unfolding cut
cut-append sep [] s h = ground arith
cut-append sep (c ∷ a) s h = rw (cut-append sep a s h.1) (ground (arith, h.0))

-- A version of three parts.
abbrev pub dotted : Text → Text → Text → Text
dotted a b c = a ++ b'.' ∷ (b ++ b'.' ∷ c)

split_n-dotted :
    (a b c : Text) → Lacks b'.' a → Lacks b'.' b → split_n 46 3 (dotted a b c) ≡ a ∷ b ∷ c ∷ []
unfolding split_n
split_n-dotted a b c ha hb = rw (cut-append 46 a (b ++ 46 ∷ c) ha, cut-append 46 b c hb) refl

parse_semver-dotted :
    (a b c : Text)
    → Lacks b'.' a
    → Lacks b'.' b
    → parse_semver (dotted a b c) ≡ semver_of (a ∷ b ∷ c ∷ [])
unfolding parse_semver
parse_semver-dotted a b c ha hb = ap semver_of (split_n-dotted a b c ha hb)

-- A decimal number that an int holds.
pub record IsNumber (s : Text) : Type 0 where
  pub first : ℕ
  pub rest : Text
  pub spelt : s ≡ first ∷ rest
  pub decimal : All IsDigit s
  pub fits : value 0 s ≤ max_int64

digits-Lacks : (s : Text) → All IsDigit s → Lacks b'.' s
digits-Lacks [] h = tt
digits-Lacks (c ∷ s) (d, h) = ((λ e. absurd (omega (arith, d, e))), digits-Lacks s h)

number_lem : (s : Text) → IsNumber s → atoi_or_zero s ≡ pos (value 0 s)
unfolding atoi_or_zero
number_lem [] n = absurd (cc n.spelt)
number_lem (c ∷ s) n = rw (parse_int-digits c s n.decimal n.fits) refl

-- The order of numbers, from the first on.
abbrev pub less_at : List ℕ → List ℕ → Bool
less_at [] bs = false
less_at (a ∷ as') [] = false
less_at (a ∷ as') (b ∷ bs) = if a == b then less_at as' bs else ltb a b

module _ (a b c d e f : Text) where
  -- Versions of three decimal numbers are ordered by the first of the numbers in which they differ.
  pub semver_less-dotted :
      All IsNumber (a ∷ b ∷ c ∷ d ∷ e ∷ f ∷ [])
      → semver_less (dotted a b c) (dotted d e f)
        ≡ less_at (map (value 0) (a ∷ b ∷ c ∷ [])) (map (value 0) (d ∷ e ∷ f ∷ []))
  unfolding semver_less
  semver_less-dotted (na, (nb, (nc, (nd, (ne, (nf, _)))))) =
      rw
        (
          parse_semver-dotted a b c (digits-Lacks a na.decimal) (digits-Lacks b nb.decimal),
          parse_semver-dotted d e f (digits-Lacks d nd.decimal) (digits-Lacks e ne.decimal),
        )
        (rw
          (
            number_lem a na,
            number_lem b nb,
            number_lem c nc,
            number_lem d nd,
            number_lem e ne,
            number_lem f nf,
          )
          (ground arith))

atoi_or_zero-none : (s : Text) → parse_int s ≡ syntax_error → atoi_or_zero s ≡ pos 0
unfolding atoi_or_zero
atoi_or_zero-none s h = rw h refl

-- Versions with the same texts in front of the second dot, and no number behind it in either, are not
-- ordered by semverLess.
pub semver_less-prerelease :
    (a b c d : Text)
    → Lacks b'.' a
    → Lacks b'.' b
    → parse_int c ≡ syntax_error
    → parse_int d ≡ syntax_error
    → semver_less (dotted a b c) (dotted a b d) ≡ false
unfolding semver_less
semver_less-prerelease a b c d la lb hc hd =
    rw (parse_semver-dotted a b c la lb, parse_semver-dotted a b d la lb)
      (rw (atoi_or_zero-none c hc, atoi_or_zero-none d hd)
        (rw (eq_int_refl (atoi_or_zero a), eq_int_refl (atoi_or_zero b)) refl))
