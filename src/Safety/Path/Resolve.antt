-- ===== src/Safety/Path/Resolve.antt =====
-- The lexical rules of filepath.Clean: a path is cut at its slashes and its elements are resolved
-- on a stack, innermost first.
use ocp_offline.Prelude.{
  Text, codes, text_eq, Bool, ◌||◌, List, [], ◌∷◌, ◌++◌, reverse, ◌==◌, if◌then◌else◌, has_prefix,
  is_empty,
}
use ocp_offline.Safety.Path.Split.{split, join_with}

abbrev pub dot : Text
dot = codes "."

abbrev pub dotdot : Text
dotdot = codes ".."

-- A path is rooted or not, and a list of elements.
pub record FilePath : Type 0 where
  pub rooted : Bool
  pub elements : List Text

-- An element `..`: it takes back an element, or stays in front of a path that is not rooted.
unfoldable pub back : Bool → List Text → List Text
back rooted [] = if rooted then [] else (dotdot ∷ [])
back rooted (t ∷ out) = if t == dotdot then dotdot ∷ t ∷ out else out

unfoldable pub push : Bool → List Text → Text → List Text
unfolding back
push rooted out e =
    if is_empty e || e == dot then out else if e == dotdot then back rooted out else e ∷ out

unfoldable pub push_all : Bool → List Text → List Text → List Text
push_all rooted out [] = out
push_all rooted out (e ∷ es) = push_all rooted (push rooted out e) es

unfoldable pub resolve : Bool → List Text → List Text
unfolding push push_all
resolve rooted es = reverse (push_all rooted [] es)

unfoldable pub parse : Text → FilePath
unfolding resolve
parse p =
    let rooted = has_prefix p (codes "/") in
    record { rooted = rooted; elements = resolve rooted (split b'/' p) }

-- An empty result is "/" or ".".
unfoldable pub render : FilePath → Text
render p =
    if p.rooted
    then (codes "/" ++ join_with b'/' p.elements)
    else elim p.elements [ [] ↦ dot | e ∷ es ↦ join_with b'/' (e ∷ es) ]
