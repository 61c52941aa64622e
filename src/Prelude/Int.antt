-- ===== src/Prelude/Int.antt =====
-- Integers over the native numbers, int64 wrap-around, and strconv.ParseInt in base 10.
use ocp_offline.Prelude.Tests.{ltb, leb, nat_eq, ◌==◌, if◌then◌else◌}
use ocp_offline.Prelude.Lists.{All}
use ocp_offline.Prelude.Texts.{Text}
use Prim.Native.Nat.{ℕ, zero, suc, ◌+◌, ◌-◌, ◌*◌, ◌%◌, ◌^◌, ◌≤◌}
use mathlib.Core.Path.{◌≡◌, refl}
use mathlib.Core.Bool.{Bool, true, false, ◌&&◌}
use mathlib.Core.Option.{Option, none, some}
use mathlib.Core.List.{[], ◌∷◌}
use native.Mathlib.Omega.{arith}

-- `negsuc n` is -(n + 1).
pub data ℤ : Type 0 where
  pos : ℕ → ℤ
  negsuc : ℕ → ℤ

-- The negative of a number.
abbrev pub neg : ℕ → ℤ
neg zero = pos 0
neg (suc n) = negsuc n

abbrev pub is_negative : ℤ → Bool
is_negative (pos n) = false
is_negative (negsuc n) = true

abbrev pub lt_int : ℤ → ℤ → Bool
lt_int (pos a) (pos b) = ltb a b
lt_int (pos a) (negsuc b) = false
lt_int (negsuc a) (pos b) = true
lt_int (negsuc a) (negsuc b) = ltb b a

abbrev pub eq_int : ℤ → ℤ → Bool
eq_int (pos a) (pos b) = a == b
eq_int (pos a) (negsuc b) = false
eq_int (negsuc a) (pos b) = false
eq_int (negsuc a) (negsuc b) = a == b

abbrev pub max_int64 : ℕ
max_int64 = 2 ^ 63 - 1

-- The int64 with the bits of a number modulo 2^64.
unfoldable pub to_int64 : ℕ → ℤ
to_int64 n = let r = n % 2 ^ 64 in if leb r max_int64 then pos r else negsuc (2 ^ 64 - 1 - r)

abbrev pub IsDigit : ℕ → Type 0
IsDigit c = (b'0' ≤ c) × (c ≤ b'9')

abbrev pub is_digit : ℕ → Bool
is_digit c = leb b'0' c && leb c b'9'

-- The number that digits spell behind `n`; `none` at a byte that is not a digit.
unfoldable pub digits : ℕ → Text → Option ℕ
digits n [] = some n
digits n (c ∷ s) = let rest = digits (n * 10 + (c - b'0')) s in if is_digit c then rest else none

-- The number that digits spell behind `n`.
abbrev pub value : ℕ → Text → ℕ
value n [] = n
value n (c ∷ s) = value (n * 10 + (c - b'0')) s

pub digits-value : (n : ℕ) (s : Text) → All IsDigit s → digits n s ≡ some (value n s)
unfolding digits
digits-value n [] h = refl
digits-value n (c ∷ s) h = ground (arith, digits-value (n * 10 + (c - b'0')) s h.1)

-- The results of strconv.ParseInt: a value, a syntax error, or a range error with the nearest value.
pub data ParsedInt : Type 0 where
  parsed : ℤ → ParsedInt
  syntax_error : ParsedInt
  range_error : ℤ → ParsedInt

unfoldable pub unsigned : Text → Option ℕ
unfolding digits
unsigned [] = none
unsigned (c ∷ s) = digits 0 (c ∷ s)

abbrev positive : Option ℕ → ParsedInt
positive none = syntax_error
positive (some n) = if leb n max_int64 then parsed (pos n) else range_error (pos max_int64)

abbrev negative : Option ℕ → ParsedInt
negative none = syntax_error
negative (some n) = if leb n (2 ^ 63) then parsed (neg n) else range_error (neg (2 ^ 63))

-- strconv.ParseInt(s, 10, 64)
unfoldable pub parse_int : Text → ParsedInt
unfolding unsigned
parse_int [] = syntax_error
parse_int (c ∷ s) =
    if c == b'+'
    then positive (unsigned s)
    else if c == b'-'
    then negative (unsigned s)
    else positive (unsigned (c ∷ s))

abbrev pub or_nearest : ParsedInt → ℤ
or_nearest (parsed n) = n
or_nearest syntax_error = pos 0
or_nearest (range_error n) = n

-- strconv.Atoi with its error dropped
unfoldable pub atoi_or_zero : Text → ℤ
unfolding parse_int
atoi_or_zero s = or_nearest (parse_int s)

-- Digits are read as the number that they spell, if it fits.
pub parse_int-digits :
    (c : ℕ) (s : Text)
    → All IsDigit (c ∷ s)
    → value 0 (c ∷ s) ≤ max_int64
    → parse_int (c ∷ s) ≡ parsed (pos (value 0 (c ∷ s)))
unfolding parse_int unsigned
parse_int-digits c s h fits = ground (arith, digits-value 0 (c ∷ s) h)
