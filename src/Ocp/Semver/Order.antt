-- ===== src/Ocp/Semver/Order.antt =====
-- The order of versions is one that sort.Slice can sort by.
use ocp_offline.Prelude.{◌≡◌, true, false, ℤ, pos, negsuc, lt_int, eq_int, arith, StrictWeakOrder}
use ocp_offline.Ocp.Semver.{Semver, before, parse_semver, semver_less}

pub lt_int-asym : (a b : ℤ) → lt_int a b ≡ true → lt_int b a ≡ false
lt_int-asym (pos a) (pos b) h = ground arith
lt_int-asym (pos a) (negsuc b) h = ground arith
lt_int-asym (negsuc a) (pos b) h = ground arith
lt_int-asym (negsuc a) (negsuc b) h = ground arith

pub lt_int-weak : (a b c : ℤ) → lt_int a b ≡ false → lt_int b c ≡ false → lt_int a c ≡ false
lt_int-weak (pos a) (pos b) (pos c) h k = ground arith
lt_int-weak (pos a) (pos b) (negsuc c) h k = ground arith
lt_int-weak (pos a) (negsuc b) (pos c) h k = ground arith
lt_int-weak (pos a) (negsuc b) (negsuc c) h k = ground arith
lt_int-weak (negsuc a) (pos b) (pos c) h k = ground arith
lt_int-weak (negsuc a) (pos b) (negsuc c) h k = ground arith
lt_int-weak (negsuc a) (negsuc b) (pos c) h k = ground arith
lt_int-weak (negsuc a) (negsuc b) (negsuc c) h k = ground arith

eq_int-eq : (a b : ℤ) → eq_int a b ≡ true → a ≡ b
eq_int-eq (pos a) (pos b) h = ground arith
eq_int-eq (pos a) (negsuc b) h = ground arith
eq_int-eq (negsuc a) (pos b) h = ground arith
eq_int-eq (negsuc a) (negsuc b) h = ground arith

pub eq_int_refl : (a : ℤ) → eq_int a a ≡ true
eq_int_refl (pos a) = ground arith
eq_int_refl (negsuc a) = ground arith

lt_int-total : (a b : ℤ) → lt_int a b ≡ false → lt_int b a ≡ false → a ≡ b
lt_int-total (pos a) (pos b) h k = ground arith
lt_int-total (pos a) (negsuc b) h k = ground arith
lt_int-total (negsuc a) (pos b) h k = ground arith
lt_int-total (negsuc a) (negsuc b) h k = ground arith

before-asym : (a b : Semver) → before a b ≡ true → before b a ≡ false
before-asym a b h = ground (
  arith,
  eq_int-eq a.major b.major,
  eq_int-eq b.major a.major,
  eq_int_refl a.major,
  eq_int_refl b.major,
  eq_int-eq a.minor b.minor,
  eq_int-eq b.minor a.minor,
  eq_int_refl a.minor,
  eq_int_refl b.minor,
  lt_int-asym a.major b.major,
  lt_int-asym a.minor b.minor,
  lt_int-asym a.patch b.patch,
)

before-weak : (a b c : Semver) → before a b ≡ false → before b c ≡ false → before a c ≡ false
before-weak a b c h k = ground (
  arith,
  eq_int-eq a.major b.major,
  eq_int-eq b.major c.major,
  eq_int-eq a.major c.major,
  eq_int-eq a.minor b.minor,
  eq_int-eq b.minor c.minor,
  eq_int-eq a.minor c.minor,
  eq_int_refl a.major,
  eq_int_refl a.minor,
  lt_int-weak a.major b.major c.major,
  lt_int-weak a.minor b.minor c.minor,
  lt_int-weak a.patch b.patch c.patch,
  lt_int-total a.major b.major,
  lt_int-total b.major c.major,
  lt_int-total a.minor b.minor,
  lt_int-total b.minor c.minor,
)

-- semverLess is a strict weak order: it is never true both ways, and versions that are not less pass
-- this on.
pub semver_less-StrictWeakOrder : StrictWeakOrder semver_less
unfolding semver_less
semver_less-StrictWeakOrder = record {
  asym = λ x y. before-asym (parse_semver x) (parse_semver y);
  weak = λ x y z. before-weak (parse_semver x) (parse_semver y) (parse_semver z);
}
