-- ===== src/Engine/Size.antt =====
-- internal/engine/size.go, on ASCII text.
pub mod Exact
use ocp_offline.Prelude.{
  ℕ, ◌+◌, ◌-◌, ◌*◌, ◌^◌, Text, codes, text_eq, nat_eq, Bool, ◌||◌, ◌&&◌, List, [], ◌∷◌, map,
  reverse, Option, none, some, Result, ok, err, ◌==◌, leb, if◌then◌else◌, is_empty, ℤ, pos, negsuc,
  to_int64, ParsedInt, parsed, parse_int,
}

-- strings.TrimSpace
unfoldable pub is_space : ℕ → Bool
is_space c = c == b' ' || (leb b'\t' c && leb c b'\r')

unfoldable pub trim_left : Text → Text
trim_left [] = []
trim_left (c ∷ s) = let rest = trim_left s in if is_space c then rest else c ∷ s

unfoldable pub trim_space : Text → Text
trim_space s = reverse (trim_left (reverse (trim_left s)))

-- strings.ToUpper, byte by byte
unfoldable pub upper : ℕ → ℕ
upper c = if leb b'a' c && leb c b'z' then c - 32 else c

unfoldable pub to_upper : Text → Text
to_upper = map upper

-- A text without its prefix.
unfoldable pub cut_prefix : Text → Text → Option Text
cut_prefix s [] = some s
cut_prefix [] (d ∷ t) = none
cut_prefix (c ∷ s) (d ∷ t) = let rest = cut_prefix s t in if c == d then rest else none

-- strings.HasSuffix with strings.TrimSuffix
unfoldable pub cut_suffix : Text → Text → Option Text
cut_suffix s t = elim (cut_prefix (reverse s) (reverse t)) [
  | none ↦ none
  | some r ↦ some (reverse r)
]

pub data SizeError : Type 0 where
  empty_size : SizeError
  missing_number invalid_number negative_size invalid_size : Text → SizeError

abbrev pub multipliers : List (Text × ℕ)
multipliers =
    (codes "TB", 1024 * 1024 * 1024 * 1024)
    ∷ (codes "GB", 1024 * 1024 * 1024)
    ∷ (codes "MB", 1024 * 1024)
    ∷ (codes "KB", 1024)
    ∷ (codes "B", 1)
    ∷ []

-- `n * mult` in int64, for an `n` that is not negative
abbrev sized : Text → SizeError → ℕ → ParsedInt → Result SizeError ℤ
sized s bad mult (parsed (pos n)) = ok (to_int64 (n * mult))
sized s bad mult (parsed (negsuc n)) = err (negative_size s)
sized s bad mult _ = err bad

-- A number with no unit is a number of bytes.
abbrev plain : Text → ParsedInt → Result SizeError ℤ
plain s (parsed (pos n)) = ok (pos n)
plain s (parsed (negsuc n)) = err (negative_size s)
plain s _ = err (invalid_size s)

-- The body of the loop for the unit that the text ends in.
unfoldable pub with_unit : Text → Text → ℕ → Result SizeError ℤ
with_unit s num mult =
    if is_empty num then err (missing_number s) else sized s (invalid_number s) mult (parse_int num)

-- `for _, m := range multipliers`, then the plain number
unfoldable pub parse_units : Text → List (Text × ℕ) → Result SizeError ℤ
parse_units s [] = plain s (parse_int s)
parse_units s ((suffix, mult) ∷ rest) = elim (cut_suffix s suffix) [
  | some num ↦ with_unit s num mult
  | none ↦ parse_units s rest
]

-- ParseSize
unfoldable pub parse_size : Text → Result SizeError ℤ
parse_size s =
    let t = trim_space s in
    if is_empty t then err empty_size else parse_units (to_upper t) multipliers
