-- ===== src/Safety/Path/Containment.antt =====
-- What `CleanRelativePath`, `EnsureUnderRoot` and `SafeJoinUnder` accept and return.
use mathlib.Core.Option
use ocp_offline.Prelude.{
  Text, text_eq, text_beq, text_beq_iff, Bool, true, false, ◌≡◌, refl, ap, sym, ◌∙◌, ◌⊎◌, inl, inr,
  List, [], ◌∷◌, ◌++◌, append-nil, arith, ◌==◌, Bool-cases, All, All-append_right, Option, none,
  some, has_prefix, if◌then◌else◌, replicate, length, same,
}
use ocp_offline.Safety.Path.Split.{split, join_with}
use ocp_offline.Safety.Path.Resolve.{FilePath, dot, dotdot, resolve, parse, render}
use ocp_offline.Safety.Path.Confined.{IsName, resolve_rooted-IsName, parse-render_rooted}
use ocp_offline.Safety.Path.{clean, is_abs, join, abs, rel_elements, rel, is_parent}

pub is_parent-dotdot : (rest : List Text) → is_parent (join_with b'/' (dotdot ∷ rest)) ≡ true
unfolding is_parent join_with text_beq has_prefix
is_parent-dotdot [] = refl
is_parent-dotdot (e ∷ es) = refl

is_parent-IsName : (e s : Text) → IsName e → is_parent (e ++ b'/' ∷ s) ≡ false
unfolding is_parent text_beq has_prefix
is_parent-IsName [] s h = absurd (h.nonempty refl)
is_parent-IsName (a ∷ []) s h = ground (arith, h.lacks.0)
is_parent-IsName (a ∷ b ∷ []) s h = ground (arith, h.not_dotdot)
is_parent-IsName (a ∷ b ∷ c ∷ e) s h = ground (arith, h.lacks.1.1.0)

is_parent-one : (e : Text) → IsName e → is_parent e ≡ false
unfolding is_parent text_beq has_prefix
is_parent-one [] h = absurd (h.nonempty refl)
is_parent-one (a ∷ []) h = ground arith
is_parent-one (a ∷ b ∷ []) h = ground (arith, h.not_dotdot)
is_parent-one (a ∷ b ∷ c ∷ e) h = ground (arith, h.lacks.1.1.0)

-- A text of names does not begin with `..`.
pub is_parent-names : (es : List Text) → All IsName es → is_parent (join_with b'/' es) ≡ false
unfolding join_with
is_parent-names [] h = unfold is_parent text_beq has_prefix in refl
is_parent-names (e ∷ []) h = is_parent-one e h.0
is_parent-names (e ∷ f ∷ es) h = is_parent-IsName e _ h.0

abbrev pub rooted_path : List Text → FilePath
rooted_path es = record { rooted = true; elements = es }

pub parse_abs :
    (p : Text) → is_abs p ≡ true → (es : List Text) × All IsName es × (parse p ≡ rooted_path es)
unfolding parse is_abs
parse_abs p h = (resolve true (split b'/' p), resolve_rooted-IsName p, rw h)

clean_abs :
    (p : Text)
    → is_abs p ≡ true
    → (es : List Text) × All IsName es × (clean p ≡ render (rooted_path es))
unfolding clean
clean_abs p h = let (es, names, e) = parse_abs p h in (es, names, ap render e)

-- The working directory, where there is one, is a rooted path.
abbrev pub RootedCwd : Option Text → Type 0
RootedCwd none = Unit
RootedCwd (some wd) = is_abs wd ≡ true

pub is_abs-append : (p q : Text) → is_abs p ≡ true → is_abs (p ++ q) ≡ true
unfolding is_abs has_prefix
is_abs-append [] q h = cc
is_abs-append (c ∷ p) q h = ground arith

pub join_abs : (a b : Text) → is_abs a ≡ true → join a b ≡ clean (a ++ b'/' ∷ b)
unfolding join is_abs has_prefix
join_abs [] b h = cc
join_abs (c ∷ a) b h = refl

abs_value :
    (cwd : Option Text) (p : Text) {q : Text}
    → RootedCwd cwd
    → abs cwd p ≡ some q
    → (r : Text) × (is_abs r ≡ true) × (q ≡ clean r)
unfolding abs
abs_value none p w h = (p, ground arith, ground arith)
abs_value (some wd) p w h = elim (Bool-cases (is_abs p)) [
  | inl t ↦ (p, t, ground arith)
  | inr f ↦ (wd ++ b'/' ∷ p, is_abs-append wd (b'/' ∷ p) w, ground (arith, join_abs wd p w))
]

-- An absolute path is the text of a rooted path of names.
pub abs-names :
    (cwd : Option Text) (p : Text) {q : Text}
    → RootedCwd cwd
    → abs cwd p ≡ some q
    → (es : List Text) × All IsName es × (q ≡ render (rooted_path es))
abs-names cwd p w h =
    let (r, ra, e) = abs_value cwd p w h in
    let (es, names, f) = clean_abs r ra in (es, names, e ∙ f)

-- One list of elements goes on from another.
abbrev pub Extends : List Text → List Text → Type 0
Extends bs ts = (rest : List Text) × (ts ≡ bs ++ rest)

rel_elements_cases :
    (bs ts : List Text)
    → All IsName bs
    → ((rest : List Text) × (ts ≡ bs ++ rest) × (rel_elements bs ts ≡ some rest))
      ⊎ ((ups : List Text) × ¬ Extends bs ts × (rel_elements bs ts ≡ some (dotdot ∷ ups)))
unfolding rel_elements
rel_elements_cases [] ts h = inl (ts, refl, refl)
rel_elements_cases (b ∷ bs) [] h = inr (_, (λ x. ground (arith, x.1)), refl)
rel_elements_cases (b ∷ bs) (t ∷ ts) h = elim (Bool-cases (b == t)) [
  | inl same ↦ elim (rel_elements_cases bs ts h.1) [
    | inl (rest, e, r) ↦ inl (rest, ground (arith, text_beq_iff b t), rw same r)
    | inr (ups, no_rest, r) ↦ inr (ups, (λ x. no_rest (x.0, ground (arith, x.1))), rw same r)
  ]
  | inr differ ↦ inr (
    replicate (length bs) dotdot ++ t ∷ ts,
    (λ x. ground (arith, x.1, text_beq_iff b t)),
    ground (arith, h.0.not_dotdot, text_beq_iff b dotdot),
  )
]

-- filepath.Rel of two texts by what they parse to.
pub rel_parsed :
    (base targ : Text) (b t : FilePath)
    → parse base ≡ b
    → parse targ ≡ t
    → rel base targ ≡ (
        if render t == render b
        then some dot
        else if same b.rooted t.rooted
        then Option.map (join_with b'/') (rel_elements b.elements t.elements)
        else none)
unfolding rel clean
rel_parsed base targ b t p q = rw (p, q)

is_parent-dot : is_parent dot ≡ false
unfolding is_parent text_beq has_prefix
is_parent-dot = refl

-- filepath.Rel of the texts of two rooted paths.
abbrev pub rel_of : List Text → List Text → Option Text
rel_of bs ts = rel (render (rooted_path bs)) (render (rooted_path ts))

-- The relative path of two rooted paths of names tells whether the second goes on from the first.
rel_of_rooted :
    (bs ts : List Text)
    → All IsName bs
    → All IsName ts
    → rel_of bs ts ≡ (
        if render (rooted_path ts) == render (rooted_path bs)
        then some dot
        else Option.map (join_with b'/') (rel_elements bs ts))
rel_of_rooted bs ts hb ht =
    rel_parsed (render (rooted_path bs)) (render (rooted_path ts)) (rooted_path bs) (rooted_path ts)
      (parse-render_rooted bs hb) (parse-render_rooted ts ht)

pub render_injective :
    (bs ts : List Text)
    → All IsName bs
    → All IsName ts
    → render (rooted_path ts) ≡ render (rooted_path bs)
    → ts ≡ bs
render_injective bs ts hb ht e =
    ap (λ p. p.elements) (sym (parse-render_rooted ts ht) ∙ ap parse e ∙ parse-render_rooted bs hb)

abbrev pub Judged : Bool → List Text → List Text → Type 0
Judged b bs ts = (r : Text) × (rel_of bs ts ≡ some r) × (is_parent r ≡ b)

pub rel_cases :
    (bs ts : List Text)
    → All IsName bs
    → All IsName ts
    → Extends bs ts × Judged false bs ts ⊎ ¬ Extends bs ts × Judged true bs ts
rel_cases bs ts hb ht = elim (Bool-cases (render (rooted_path ts) == render (rooted_path bs))) [
  | inl same_text ↦
      let e : ts ≡ bs = render_injective bs ts hb ht ((text_beq_iff _ _).0 same_text) in
      inl
        (([], rw (append-nil, e)), (dot, rw (rel_of_rooted bs ts hb ht, same_text), is_parent-dot))
  | inr differ ↦ elim (rel_elements_cases bs ts hb) [
    | inl (rest, e, r) ↦ inl (
      (rest, e),
      (
        join_with b'/' rest,
        rw (rel_of_rooted bs ts hb ht, differ, r),
        is_parent-names rest (All-append_right IsName bs rest (rw e at ht)),
      ),
    )
    | inr (ups, no_rest, r) ↦ inr (
      no_rest,
      (
        join_with b'/' (dotdot ∷ ups),
        rw (rel_of_rooted bs ts hb ht, differ, r),
        is_parent-dotdot ups,
      ),
    )
  ]
]
