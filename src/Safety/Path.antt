-- ===== src/Safety/Path.antt =====
-- internal/safety/path.go, over the functions of Go's path/filepath on Unix that it calls.
-- `filepath.FromSlash` and `ToSlash` are the identity there. `Getwd` is a parameter: `none` is its
-- error.
pub mod Split
pub mod Resolve
pub mod Confined
pub mod Containment
pub mod Guarantees
pub mod Relative
pub mod Complete
use mathlib.Core.Option
use ocp_offline.Prelude.{
  ℕ, Text, codes, text_eq, Bool, true, false, ◌||◌, ◌&&◌, List, [], ◌∷◌, ◌++◌, Option, none, some,
  Result, ok, err, map_err, ◌>>=◌, ◌==◌, if◌then◌else◌, has_prefix, is_empty, or_err, same, length,
  replicate, text_beq, ◌≡◌, refl,
}
use Split.{split, join_with}
use Resolve.{FilePath, dot, dotdot, parse, render, resolve}

pub data PathError : Type 0 where
  empty_path resolves_to_dot : PathError
  absolute parent_traversal escapes_root : Text → PathError
  resolve_root resolve_candidate compare_paths : PathError

abbrev pub dotdot_slash : Text
dotdot_slash = codes "../"

-- filepath.Clean
unfoldable pub clean : Text → Text
clean p = render (parse p)

-- filepath.IsAbs
unfoldable pub is_abs : Text → Bool
is_abs p = has_prefix p (codes "/")

-- filepath.Join of two elements: an empty first element is dropped
unfoldable pub join : Text → Text → Text
join [] b = if is_empty b then [] else clean b
join (c ∷ a) b = clean ((c ∷ a) ++ b'/' ∷ b)

-- filepath.Abs
unfoldable pub abs : Option Text → Text → Option Text
abs cwd p =
    if is_abs p then some (clean p) else elim cwd [ none ↦ none | some wd ↦ some (join wd p) ]

-- What filepath.Rel does behind the elements that both paths begin with.
unfoldable pub rel_elements : List Text → List Text → Option (List Text)
rel_elements [] ts = some ts
rel_elements (b ∷ bs) [] = some (replicate (length (b ∷ bs)) dotdot)
rel_elements (b ∷ bs) (t ∷ ts) =
    let rest = rel_elements bs ts in
    if b == t
    then rest
    else if b == dotdot
    then none
    else some (replicate (length (b ∷ bs)) dotdot ++ t ∷ ts)

-- filepath.Rel
unfoldable pub rel : Text → Text → Option Text
rel base targ =
    if clean targ == clean base
    then some dot
    else if same (parse base).rooted (parse targ).rooted
    then Option.map (join_with b'/') (rel_elements (parse base).elements (parse targ).elements)
    else none

-- The tests on the result of filepath.Rel and of filepath.Clean for a leading `..`.
unfoldable pub is_parent : Text → Bool
is_parent p = p == dotdot || has_prefix p dotdot_slash

-- CleanRelativePath
unfoldable pub clean_relative_path : Text → Result PathError Text
clean_relative_path p =
    if is_empty p
    then err empty_path
    else let c = clean p in
      if c == dot
      then err resolves_to_dot
      else if is_abs c
      then err (absolute p)
      else if is_parent c
      then err (parent_traversal p)
      else ok c

-- EnsureUnderRoot
unfoldable pub ensure_under_root : Option Text → Text → Text → Result PathError Text
ensure_under_root cwd root candidate = do
  root_abs ← or_err (abs cwd root) resolve_root
  cand_abs ← or_err (abs cwd candidate) resolve_candidate
  r ← or_err (rel root_abs cand_abs) compare_paths
  if is_parent r then err (escapes_root candidate) else ok cand_abs

-- SafeJoinUnder
unfoldable pub safe_join_under : Option Text → Text → Text → Result PathError Text
safe_join_under cwd root r = do
  clean_rel ← clean_relative_path r
  ensure_under_root cwd root (join root clean_rel)
