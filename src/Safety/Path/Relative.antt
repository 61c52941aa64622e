-- ===== src/Safety/Path/Relative.antt =====
-- What CleanRelativePath of internal/safety/path.go returns.
use ocp_offline.Prelude.{
  Text, codes, text_eq, text_beq_iff, subst, Bool, true, false, ◌≡◌, ◌≢◌, refl, ap, ◌⊎◌, inl, inr,
  List, [], ◌∷◌, arith, Bool-cases, All, ok, has_prefix, is_empty,
}
use ocp_offline.Safety.Path.Split.{join_with}
use ocp_offline.Safety.Path.Resolve.{dot, parse, render}
use ocp_offline.Safety.Path.Confined.{
  IsName, NamesOrParent, resolve-front, parse-join, relative_slash,
}
use ocp_offline.Safety.Path.{clean, is_abs, is_parent, clean_relative_path}
use ocp_offline.Safety.Path.Containment.{is_parent-dotdot, is_parent-names}

-- The text that `CleanRelativePath` returns.
abbrev pub RelativeNames : Text → Type 0
RelativeNames c =
    (e : Text) × (es : List Text) × All IsName (e ∷ es) × (c ≡ join_with b'/' (e ∷ es))

cleaned :
    (rooted : Bool) (es : List Text)
    → (rooted ≡ true) ⊎ NamesOrParent es
    → render (record { rooted = rooted; elements = es }) ≢ dot
    → is_abs (render (record { rooted = rooted; elements = es })) ≡ false
    → is_parent (render (record { rooted = rooted; elements = es })) ≡ false
    → RelativeNames (render (record { rooted = rooted; elements = es }))
unfolding render is_abs has_prefix
cleaned true es h d a q = cc
cleaned false es (inl t) d a q = cc
cleaned false [] (inr h) d a q = absurd (d refl)
cleaned false (e ∷ es) (inr (inl names)) d a q = (e, es, names, refl)
cleaned false (e ∷ es) (inr (inr (rest, x))) d a q =
    cc (is_parent-dotdot rest, ap (join_with b'/') x)

parse_front : (p : Text) → ((parse p).rooted ≡ true) ⊎ NamesOrParent (parse p).elements
unfolding parse
parse_front p = elim (Bool-cases (has_prefix p (codes "/"))) [
  | inl t ↦ inl t
  | inr f ↦ inr (rw f (resolve-front p))
]

accepted :
    (p : Text) {c : Text}
    → clean_relative_path p ≡ ok c
    → (clean p ≡ c) × (clean p ≢ dot) × (is_abs (clean p) ≡ false) × (is_parent (clean p) ≡ false)
unfolding clean_relative_path
accepted p h = ground (arith, text_beq_iff (clean p) dot)

-- What `CleanRelativePath` returns is one or more names joined by slashes: it is not absolute, and
-- no element is empty, `.` or `..`.
pub clean_relative_path_names :
    (p : Text) {c : Text} → clean_relative_path p ≡ ok c → RelativeNames c
unfolding clean
clean_relative_path_names p h =
    let (e, d, a, q) = accepted p h in
    subst RelativeNames e (cleaned (parse p).rooted (parse p).elements (parse_front p) d a q)

join-ne-nil : (e : Text) (es : List Text) → IsName e → is_empty (join_with b'/' (e ∷ es)) ≡ false
unfolding join_with
join-ne-nil [] es h = absurd (h.nonempty refl)
join-ne-nil (c ∷ e) [] h = refl
join-ne-nil (c ∷ e) (f ∷ es) h = refl

join-ne-dot : (e : Text) (es : List Text) → IsName e → join_with b'/' (e ∷ es) ≢ dot
unfolding join_with
join-ne-dot [] es h = absurd (h.nonempty refl)
join-ne-dot e [] h = h.not_dot
join-ne-dot (c ∷ []) (f ∷ es) h = cc
join-ne-dot (c ∷ d ∷ e) (f ∷ es) h = cc

clean-join :
    (e : Text) (es : List Text)
    → All IsName (e ∷ es)
    → clean (join_with b'/' (e ∷ es)) ≡ join_with b'/' (e ∷ es)
unfolding clean
clean-join e es h = rw (parse-join e es h) (unfold render in refl)

is_abs-join :
    (e : Text) (es : List Text) → All IsName (e ∷ es) → is_abs (join_with b'/' (e ∷ es)) ≡ false
unfolding is_abs
is_abs-join e es h = relative_slash e es h.0

-- Names joined by slashes are accepted as they are.
pub clean_relative_path_fixed :
    (e : Text) (es : List Text)
    → All IsName (e ∷ es)
    → clean_relative_path (join_with b'/' (e ∷ es)) ≡ ok (join_with b'/' (e ∷ es))
unfolding clean_relative_path
clean_relative_path_fixed e es h =
    let c = join_with b'/' (e ∷ es) in
    ground (
      arith,
      join-ne-nil e es h.0,
      clean-join e es h,
      join-ne-dot e es h.0,
      text_beq_iff c dot,
      is_abs-join e es h,
      is_parent-names (e ∷ es) h,
    )

-- `CleanRelativePath` accepts its own results and returns them unchanged.
pub clean_relative_path_idem :
    (p : Text) {c : Text} → clean_relative_path p ≡ ok c → clean_relative_path c ≡ ok c
clean_relative_path_idem p h =
    let (e, es, names, x) = clean_relative_path_names p h in
    rw x (clean_relative_path_fixed e es names)
