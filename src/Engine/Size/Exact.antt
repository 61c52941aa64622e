-- ===== src/Engine/Size/Exact.antt =====
-- What `ParseSize` makes of digits with a unit, and of digits alone.
use mathlib.Core.List.{reverse-append, reverse-reverse, map-append}
use ocp_offline.Prelude.{
  ℕ, ◌*◌, ◌≤◌, ◌<◌, ◌^◌, ◌-◌, Text, codes, ◌≡◌, refl, ap, ◌∙◌, false, [], ◌∷◌, ◌++◌, reverse, All,
  All-reverse, arith, none, some, ok, pos, negsuc, to_int64, IsDigit, value, max_int64,
  parse_int-digits,
}
use ocp_offline.Engine.Size.{
  is_space, trim_left, trim_space, upper, to_upper, cut_prefix, cut_suffix, with_unit, parse_units,
  parse_size, multipliers,
}

pub data SizeUnit : Type 0 where
  tb gb mb kb b : SizeUnit

abbrev pub suffix_of : SizeUnit → Text
suffix_of tb = codes "TB"
suffix_of gb = codes "GB"
suffix_of mb = codes "MB"
suffix_of kb = codes "KB"
suffix_of b = codes "B"

abbrev pub bytes_of : SizeUnit → ℕ
bytes_of tb = 2 ^ 40
bytes_of gb = 2 ^ 30
bytes_of mb = 2 ^ 20
bytes_of kb = 2 ^ 10
bytes_of b = 1

upper-digits : (ds : Text) → All IsDigit ds → to_upper ds ≡ ds
unfolding to_upper upper
upper-digits [] h = refl
upper-digits (c ∷ ds) h = ground (arith, upper-digits ds h.1)

upper-suffix : (u : SizeUnit) → to_upper (suffix_of u) ≡ suffix_of u
unfolding to_upper upper
upper-suffix tb = refl
upper-suffix gb = refl
upper-suffix mb = refl
upper-suffix kb = refl
upper-suffix b = refl

upper-sized :
    (ds : Text) (u : SizeUnit) → All IsDigit ds → to_upper (ds ++ suffix_of u) ≡ ds ++ suffix_of u
unfolding to_upper upper
upper-sized ds u h = rw map-append (unfold to_upper in cc (upper-digits ds h, upper-suffix u))

-- A text that neither begins nor ends in a space.
trim_fixed :
    (c d : ℕ) (s r : Text)
    → is_space c ≡ false
    → is_space d ≡ false
    → reverse (c ∷ s) ≡ d ∷ r
    → trim_space (c ∷ s) ≡ c ∷ s
unfolding trim_space trim_left
trim_fixed c d s r hc hd e = rw (hc, e, hd) (rw (← e) (reverse-reverse (c ∷ s)))

cut_none : (r : Text) (d : ℕ) (t : Text) → All IsDigit r → b'A' ≤ d → cut_prefix r (d ∷ t) ≡ none
unfolding cut_prefix
cut_none [] d t h k = refl
cut_none (c ∷ r) d t h k = ground arith

digit-is_space : (c : ℕ) → IsDigit c → is_space c ≡ false
unfolding is_space
digit-is_space c h = ground arith

trim_sized :
    (c : ℕ) (s : Text) (u : SizeUnit)
    → All IsDigit (c ∷ s)
    → trim_space ((c ∷ s) ++ suffix_of u) ≡ (c ∷ s) ++ suffix_of u
trim_sized c s tb h =
    trim_fixed c b'B' _ _ (digit-is_space c h.0) (unfold is_space in refl)
      (reverse-append (c ∷ s) _)
trim_sized c s gb h =
    trim_fixed c b'B' _ _ (digit-is_space c h.0) (unfold is_space in refl)
      (reverse-append (c ∷ s) _)
trim_sized c s mb h =
    trim_fixed c b'B' _ _ (digit-is_space c h.0) (unfold is_space in refl)
      (reverse-append (c ∷ s) _)
trim_sized c s kb h =
    trim_fixed c b'B' _ _ (digit-is_space c h.0) (unfold is_space in refl)
      (reverse-append (c ∷ s) _)
trim_sized c s b h =
    trim_fixed c b'B' _ _ (digit-is_space c h.0) (unfold is_space in refl)
      (reverse-append (c ∷ s) _)

cut_prefix-append : (t r : Text) → cut_prefix (t ++ r) t ≡ some r
unfolding cut_prefix
cut_prefix-append [] r = refl
cut_prefix-append (c ∷ t) r = ground (arith, cut_prefix-append t r)

cut_hit : (ds suffix : Text) → cut_suffix (ds ++ suffix) suffix ≡ some ds
unfolding cut_suffix
cut_hit ds suffix =
    rw (reverse-append ds suffix, cut_suffix)
      (rw (cut_prefix-append (reverse suffix) (reverse ds)) (ap some (reverse-reverse ds)))

cut_miss :
    (ds t suffix : Text)
    → cut_prefix (reverse t ++ reverse ds) (reverse suffix) ≡ none
    → cut_suffix (ds ++ t) suffix ≡ none
unfolding cut_suffix
cut_miss ds t suffix e = rw (reverse-append ds t, cut_suffix) (rw e)

-- The loop stops at the unit that stands behind the digits.
units_of :
    (ds : Text) (u : SizeUnit)
    → All IsDigit ds
    → parse_units (ds ++ suffix_of u) multipliers ≡ with_unit (ds ++ suffix_of u) ds (bytes_of u)
unfolding parse_units cut_prefix
units_of ds tb h = rw (cut_hit ds (codes "TB"), parse_units)
units_of ds gb h =
    rw (cut_miss ds (codes "GB") (codes "TB") refl, cut_hit ds (codes "GB"), parse_units)
units_of ds mb h = rw (
  cut_miss ds (codes "MB") (codes "TB") refl,
  cut_miss ds (codes "MB") (codes "GB") refl,
  cut_hit ds (codes "MB"),
  parse_units,
)
units_of ds kb h = rw (
  cut_miss ds (codes "KB") (codes "TB") refl,
  cut_miss ds (codes "KB") (codes "GB") refl,
  cut_miss ds (codes "KB") (codes "MB") refl,
  cut_hit ds (codes "KB"),
  parse_units,
)
units_of ds b h =
    let no_letter =
      λ (d : ℕ) (k : b'A' ≤ d). cut_none (reverse ds) d [] (All-reverse IsDigit ds h) k in
    rw (
      cut_miss ds (codes "B") (codes "TB") (no_letter b'T' (omega arith)),
      cut_miss ds (codes "B") (codes "GB") (no_letter b'G' (omega arith)),
      cut_miss ds (codes "B") (codes "MB") (no_letter b'M' (omega arith)),
      cut_miss ds (codes "B") (codes "KB") (no_letter b'K' (omega arith)),
      cut_hit ds (codes "B"),
      parse_units,
    )

-- Digits with a unit behind them are read as their number times the unit's bytes, in int64: where
-- the product is 2^63 or more, the result is what wraps around, and no error.
pub parse_size-unit :
    (c : ℕ) (s : Text) (u : SizeUnit)
    → All IsDigit (c ∷ s)
    → value 0 (c ∷ s) ≤ max_int64
    → parse_size ((c ∷ s) ++ suffix_of u) ≡ ok (to_int64 (value 0 (c ∷ s) * bytes_of u))
unfolding parse_size with_unit
parse_size-unit c s u h fits =
    rw (
      trim_sized c s u h,
      upper-sized (c ∷ s) u h,
      units_of (c ∷ s) u h,
      parse_int-digits c s h fits,
    )

to_int64_small : (n : ℕ) → n ≤ max_int64 → to_int64 n ≡ pos n
unfolding to_int64
to_int64_small n h = ground arith

to_int64_negative : (n : ℕ) → 2 ^ 63 ≤ n → n < 2 ^ 64 → to_int64 n ≡ negsuc (2 ^ 64 - 1 - n)
unfolding to_int64
to_int64_negative n h k = ground arith

value_fits : (n : ℕ) (u : SizeUnit) → n * bytes_of u ≤ max_int64 → n ≤ max_int64
value_fits n tb h = omega arith
value_fits n gb h = omega arith
value_fits n mb h = omega arith
value_fits n kb h = omega arith
value_fits n b h = omega arith

-- The size that is meant is returned, if it fits in an int64.
pub parse_size-fits :
    (c : ℕ) (s : Text) (u : SizeUnit)
    → All IsDigit (c ∷ s)
    → value 0 (c ∷ s) * bytes_of u ≤ max_int64
    → parse_size ((c ∷ s) ++ suffix_of u) ≡ ok (pos (value 0 (c ∷ s) * bytes_of u))
parse_size-fits c s u h fits =
    parse_size-unit c s u h (value_fits (value 0 (c ∷ s)) u fits) ∙ ap ok (to_int64_small _ fits)

-- A number of terabytes from 2^23 to below 2^24 is accepted, and the result is negative.
pub parse_size-overflow :
    (c : ℕ) (s : Text)
    → All IsDigit (c ∷ s)
    → 2 ^ 23 ≤ value 0 (c ∷ s)
    → value 0 (c ∷ s) < 2 ^ 24
    → parse_size ((c ∷ s) ++ suffix_of tb) ≡ ok (negsuc (2 ^ 64 - 1 - value 0 (c ∷ s) * 2 ^ 40))
parse_size-overflow c s h lo hi =
    parse_size-unit c s tb h (omega arith) ∙ ap ok (to_int64_negative _ (omega arith) (omega arith))
