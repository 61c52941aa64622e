-- ===== src/Ocp/Semver.antt =====
-- internal/ocp/clients.go: versions as three numbers, their order, and the sort by it. strconv.Atoi
-- gives 0 for what is no number, and the nearest number for what does not fit.
pub mod Order
pub mod Numbers
use ocp_offline.Prelude.{
  ℕ, zero, suc, Text, nat_eq, Bool, not, List, [], ◌∷◌, Option, none, some, ◌==◌, if◌then◌else◌, ℤ,
  pos, lt_int, eq_int, atoi_or_zero, Sorter,
}

abbrev pub push_front : ℕ → Option (Text × Text) → Option (Text × Text)
push_front c none = none
push_front c (some (a, b)) = some (c ∷ a, b)

-- The texts in front of and behind the first separator: strings.Index with the two slices.
unfoldable pub cut : ℕ → Text → Option (Text × Text)
cut sep [] = none
cut sep (c ∷ s) = let rest = push_front c (cut sep s) in if c == sep then some ([], s) else rest

abbrev pub cut_parts : Text → (Text → List Text) → Option (Text × Text) → List Text
cut_parts s parts none = s ∷ []
cut_parts s parts (some (a, b)) = a ∷ parts b

-- strings.SplitN
unfoldable pub split_n : ℕ → ℕ → Text → List Text
unfolding cut
split_n sep zero s = []
split_n sep (suc zero) s = s ∷ []
split_n sep (suc (suc n)) s = cut_parts s (λ rest. split_n sep (suc n) rest) (cut sep s)

pub record Semver : Type 0 where
  pub major : ℤ
  pub minor : ℤ
  pub patch : ℤ

abbrev pub semver_of : List Text → Semver
semver_of [] = record { major = pos 0; minor = pos 0; patch = pos 0 }
semver_of (a ∷ []) = record { major = atoi_or_zero a; minor = pos 0; patch = pos 0 }
semver_of (a ∷ b ∷ []) = record { major = atoi_or_zero a; minor = atoi_or_zero b; patch = pos 0 }
semver_of (a ∷ b ∷ c ∷ more) = record {
  major = atoi_or_zero a;
  minor = atoi_or_zero b;
  patch = atoi_or_zero c;
}

-- parseSemver
unfoldable pub parse_semver : Text → Semver
parse_semver v = semver_of (split_n 46 3 v)

abbrev pub before : Semver → Semver → Bool
before a b =
    if not (eq_int a.major b.major)
    then lt_int a.major b.major
    else if not (eq_int a.minor b.minor)
    then lt_int a.minor b.minor
    else lt_int a.patch b.patch

-- semverLess
unfoldable pub semver_less : Text → Text → Bool
semver_less a b = before (parse_semver a) (parse_semver b)

-- SortVersions
unfoldable pub sort_versions : Sorter → List Text → List Text
sort_versions sorter versions = sorter.run semver_less versions
