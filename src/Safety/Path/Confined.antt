-- ===== src/Safety/Path/Confined.antt =====
-- What resolving an element list leaves: elements that are names, below `..` elements only if the
-- path is not rooted.
use mathlib.Core.List.{reverse_aux, reverse-reverse, reverse-cons}
use ocp_offline.Prelude.{
  Text, codes, text_eq, text_beq_iff, Bool, true, false, ◌≡◌, ◌≢◌, refl, ◌⊎◌, inl, inr, List, [],
  ◌∷◌, ◌++◌, reverse, is_empty, has_prefix, ◌||◌, append-nil, arith, ◌==◌, Bool-cases, All,
  All-append, All-reverse,
}
use ocp_offline.Safety.Path.Split.{Lacks, split, join_with, split-Lacks, split-join_with}
use ocp_offline.Safety.Path.Resolve.{dot, dotdot, back, push, push_all, resolve, parse, render}

-- An element that names a file or directory of its parent.
pub record IsName (e : Text) : Type 0 where
  pub nonempty : e ≢ []
  pub not_dot : e ≢ dot
  pub not_dotdot : e ≢ dotdot
  pub lacks : Lacks b'/' e

push-name : (rooted : Bool) (out : List Text) (e : Text) → IsName e → push rooted out e ≡ e ∷ out
unfolding push
push-name rooted out [] h = absurd (h.nonempty refl)
push-name rooted out (c ∷ e) h =
    ground (arith, text_beq_iff (c ∷ e) dot, text_beq_iff (c ∷ e) dotdot)

pub push_all-names :
    (rooted : Bool) (out es : List Text)
    → All IsName es
    → push_all rooted out es ≡ reverse_aux es out
unfolding push_all
push_all-names rooted out [] h = refl
push_all-names rooted out (e ∷ es) h =
    rw (push-name rooted out e h.0) (push_all-names rooted (e ∷ out) es h.1)

-- Names are left as they are.
pub resolve-names : (rooted : Bool) (es : List Text) → All IsName es → resolve rooted es ≡ es
unfolding resolve
resolve-names rooted es h = rw (push_all-names rooted [] es h) (reverse-reverse es)

IsName-intro :
    (e : Text)
    → (is_empty e ≡ false)
    → (e == dot) ≡ false
    → (e == dotdot) ≡ false
    → Lacks b'/' e
    → IsName e
IsName-intro e a b c l = record {
  nonempty = ground arith;
  not_dot = ground (arith, text_beq_iff e dot);
  not_dotdot = ground (arith, text_beq_iff e dotdot);
  lacks = l;
}

tail_names : (out : List Text) → All IsName out → All IsName (back true out)
unfolding back
tail_names [] h = h
tail_names (t ∷ out) h = ground (arith, h.0.not_dotdot, text_beq_iff t dotdot, h.1)

-- The stack of a rooted path holds names only.
push-IsName :
    (out : List Text) (e : Text) → Lacks b'/' e → All IsName out → All IsName (push true out e)
unfolding push
push-IsName out e he h = elim (Bool-cases (is_empty e || e == dot)) [
  | inl skip ↦ rw skip h
  | inr go ↦ elim (Bool-cases (e == dotdot)) [
    | inl up ↦ rw (go, up) (tail_names out h)
    | inr down ↦ rw (go, down) (IsName-intro e (ground arith) (ground arith) down he, h)
  ]
]

push_all-IsName :
    (out es : List Text) → All (Lacks b'/') es → All IsName out → All IsName (push_all true out es)
unfolding push_all
push_all-IsName out [] hs h = h
push_all-IsName out (e ∷ es) hs h =
    push_all-IsName (push true out e) es hs.1 (push-IsName out e hs.0 h)

-- The elements of a rooted path are names.
pub resolve_rooted-IsName : (p : Text) → All IsName (resolve true (split b'/' p))
unfolding resolve
resolve_rooted-IsName p =
    All-reverse IsName _ (push_all-IsName [] (split b'/' p) (split-Lacks b'/' p) tt)

-- The stack of a path that is not rooted: names above, then `..` elements only.
abbrev Tidy : List Text → Type 0
Tidy [] = Unit
Tidy (t ∷ out) = ((t ≡ dotdot) × All (λ e. e ≡ dotdot) out) ⊎ (IsName t × Tidy out)

back-Tidy : (out : List Text) → Tidy out → Tidy (back false out)
unfolding back
back-Tidy [] h = inl (refl, tt)
back-Tidy (t ∷ out) (inl h) = ground (arith, text_beq_iff t dotdot)
back-Tidy (t ∷ out) (inr h) = ground (arith, text_beq_iff t dotdot, h.0.not_dotdot)

push-Tidy : (out : List Text) (e : Text) → Lacks b'/' e → Tidy out → Tidy (push false out e)
unfolding push
push-Tidy out e he h = elim (Bool-cases (is_empty e || e == dot)) [
  | inl skip ↦ rw skip h
  | inr go ↦ elim (Bool-cases (e == dotdot)) [
    | inl up ↦ rw (go, up) (back-Tidy out h)
    | inr down ↦ rw (go, down) (inr (IsName-intro e (ground arith) (ground arith) down he, h))
  ]
]

push_all-Tidy : (out es : List Text) → All (Lacks b'/') es → Tidy out → Tidy (push_all false out es)
unfolding push_all
push_all-Tidy out [] hs h = h
push_all-Tidy out (e ∷ es) hs h = push_all-Tidy (push false out e) es hs.1 (push-Tidy out e hs.0 h)

-- The elements of a path that is not rooted: all names, or `..` first.
abbrev pub NamesOrParent : List Text → Type 0
NamesOrParent es = All IsName es ⊎ ((rest : List Text) × (es ≡ dotdot ∷ rest))

dots-front :
    (out acc : List Text)
    → All (λ e. e ≡ dotdot) out
    → (rest : List Text) × (reverse_aux out (dotdot ∷ acc) ≡ dotdot ∷ rest)
dots-front [] acc h = (acc, refl)
dots-front (t ∷ out) acc h = rw h.0 (dots-front out (dotdot ∷ acc) h.1)

Tidy-front : (out : List Text) → Tidy out → NamesOrParent (reverse out)
Tidy-front [] h = inl tt
Tidy-front (t ∷ out) (inl h) = inr (rw h.0 (dots-front out [] h.1))
Tidy-front (t ∷ out) (inr h) = elim (Tidy-front out h.1) [
  | inl names ↦
      inl (rw (reverse-cons t out) (All-append IsName (reverse out) (t ∷ []) names (h.0, tt)))
  | inr up ↦ inr (up.0 ++ t ∷ [], rw (reverse-cons t out, up.1))
]

pub resolve-front : (p : Text) → NamesOrParent (resolve false (split b'/' p))
unfolding resolve
resolve-front p = Tidy-front _ (push_all-Tidy [] (split b'/' p) (split-Lacks b'/' p) tt)

has_prefix_slash : (e s : Text) → IsName e → has_prefix (e ++ s) (codes "/") ≡ false
unfolding has_prefix
has_prefix_slash [] s h = absurd (h.nonempty refl)
has_prefix_slash (c ∷ e) s h = ground (arith, h.lacks.0)

pub names-Lacks : (es : List Text) → All IsName es → All (Lacks b'/') es
names-Lacks [] h = tt
names-Lacks (e ∷ es) h = (h.0.lacks, names-Lacks es h.1)

pub relative_slash :
    (e : Text) (es : List Text)
    → IsName e
    → has_prefix (join_with b'/' (e ∷ es)) (codes "/") ≡ false
unfolding join_with
relative_slash e [] h = rw (← append-nil e) (has_prefix_slash e [] h)
relative_slash e (f ∷ es) h = has_prefix_slash e _ h

-- Reading back the text of a relative path of names.
pub parse-join :
    (e : Text) (es : List Text)
    → All IsName (e ∷ es)
    → parse (join_with b'/' (e ∷ es)) ≡ record { rooted = false; elements = e ∷ es }
unfolding parse
parse-join e es h = rw (
  relative_slash e es h.0,
  split-join_with b'/' e es (names-Lacks (e ∷ es) h),
  resolve-names false (e ∷ es) h,
)

-- The empty element in front of the first slash is dropped.
parse_rooted :
    (s : Text) → parse (b'/' ∷ s) ≡ record { rooted = true; elements = resolve true (split b'/' s) }
unfolding parse split has_prefix
parse_rooted s = refl

-- Reading back the text of a rooted path of names.
pub parse-render_rooted :
    (es : List Text)
    → All IsName es
    → parse (render (record { rooted = true; elements = es }))
      ≡ record { rooted = true; elements = es }
unfolding render
parse-render_rooted [] h = unfold join_with resolve split in parse_rooted []
parse-render_rooted (e ∷ es) h = rw (
  parse_rooted (join_with b'/' (e ∷ es)),
  split-join_with b'/' e es (names-Lacks (e ∷ es) h),
  resolve-names true (e ∷ es) h,
)
