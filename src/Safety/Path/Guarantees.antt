-- ===== src/Safety/Path/Guarantees.antt =====
-- The guarantees of internal/safety/path.go to its callers.
use ocp_offline.Prelude.{
  Text, text_eq, Bool, true, false, ◌≡◌, ap, ◌⊎◌, inl, inr, ◌↔◌, List, ◌++◌, arith, All, Option,
  some, ok, err, if◌then◌else◌, Option-cases, >>=-eq-ok,
}
use ocp_offline.Safety.Path.Resolve.{parse, render}
use ocp_offline.Safety.Path.Confined.{IsName, parse-render_rooted}
use ocp_offline.Safety.Path.{
  join, abs, rel, is_parent, clean_relative_path, ensure_under_root, safe_join_under, escapes_root,
}
use ocp_offline.Safety.Path.Containment.{
  RootedCwd, Extends, Judged, rooted_path, abs-names, rel_cases,
}

ensure_step :
    (cwd : Option Text) (root candidate root_abs cand_abs r : Text)
    → abs cwd root ≡ some root_abs
    → abs cwd candidate ≡ some cand_abs
    → rel root_abs cand_abs ≡ some r
    → ensure_under_root cwd root candidate
      ≡ (if is_parent r then err (escapes_root candidate) else ok cand_abs)
unfolding ensure_under_root
ensure_step cwd root candidate root_abs cand_abs r p q e = rw (p, q, e)

-- The elements of two absolute paths, and what `EnsureUnderRoot` says of them.
record Compared (cwd : Option Text) (root candidate root_abs cand_abs : Text) : Type 0 where
  base : List Text
  base_names : All IsName base
  base_text : root_abs ≡ render (rooted_path base)
  targ : List Text
  targ_names : All IsName targ
  targ_text : cand_abs ≡ render (rooted_path targ)
  verdict :
      Extends base targ × (ensure_under_root cwd root candidate ≡ ok cand_abs)
      ⊎ ¬ Extends base targ × (ensure_under_root cwd root candidate ≡ err (escapes_root candidate))

judge :
    (cwd : Option Text) (root candidate root_abs cand_abs : Text) (bs ts : List Text) (b : Bool)
    → abs cwd root ≡ some root_abs
    → abs cwd candidate ≡ some cand_abs
    → root_abs ≡ render (rooted_path bs)
    → cand_abs ≡ render (rooted_path ts)
    → Judged b bs ts
    → ensure_under_root cwd root candidate
      ≡ (if b then err (escapes_root candidate) else ok cand_abs)
judge cwd root candidate root_abs cand_abs bs ts b hr hc eb et (r, e, p) =
    rw (ensure_step cwd root candidate root_abs cand_abs r hr hc (rw (eb, et) e), p)

compared :
    (cwd : Option Text) (root candidate root_abs cand_abs : Text)
    → RootedCwd cwd
    → abs cwd root ≡ some root_abs
    → abs cwd candidate ≡ some cand_abs
    → Compared cwd root candidate root_abs cand_abs
compared cwd root candidate root_abs cand_abs w hr hc =
    let (bs, nb, eb) = abs-names cwd root w hr in
    let (ts, nt, et) = abs-names cwd candidate w hc in
    record {
      base = bs;
      base_names = nb;
      base_text = eb;
      targ = ts;
      targ_names = nt;
      targ_text = et;
      verdict = elim (rel_cases bs ts nb nt) [
        | inl (x, j) ↦ inl (x, judge cwd root candidate root_abs cand_abs bs ts false hr hc eb et j)
        | inr (x, j) ↦ inr (x, judge cwd root candidate root_abs cand_abs bs ts true hr hc eb et j)
      ];
    }

elements_of :
    (p : Text) (es : List Text)
    → p ≡ render (rooted_path es)
    → All IsName es
    → (parse p).elements ≡ es
elements_of p es e h = rw e (ap (λ f. f.elements) (parse-render_rooted es h))

-- `EnsureUnderRoot` accepts a candidate, and returns its absolute path, exactly when the elements
-- of that path begin with those of the absolute root; the working directory is a rooted path.
pub ensure_under_root_iff :
    (cwd : Option Text) (root candidate root_abs cand_abs : Text)
    → RootedCwd cwd
    → abs cwd root ≡ some root_abs
    → abs cwd candidate ≡ some cand_abs
    → (ensure_under_root cwd root candidate ≡ ok cand_abs)
      ↔ Extends (parse root_abs).elements (parse cand_abs).elements
ensure_under_root_iff cwd root candidate root_abs cand_abs w hr hc =
    let c = compared cwd root candidate root_abs cand_abs w hr hc in
    rw
      (
        elements_of root_abs c.base c.base_text c.base_names,
        elements_of cand_abs c.targ c.targ_text c.targ_names,
      )
      (elim c.verdict [
        | inl (x, e) ↦ ((λ _. x), (λ _. e))
        | inr (n, e) ↦ ((λ accepted. ground (arith, e)), (λ x. absurd (n x)))
      ])

pub ensure_returns :
    (cwd : Option Text) (root candidate : Text) {p : Text}
    → ensure_under_root cwd root candidate ≡ ok p
    → (root_abs : Text) × (abs cwd root ≡ some root_abs) × (abs cwd candidate ≡ some p)
unfolding ensure_under_root
ensure_returns cwd root candidate h = elim (Option-cases (abs cwd root)) [
  | inl failed ↦ absurd (ground arith)
  | inr (root_abs, e) ↦ (root_abs, e, ground arith)
]

-- The names below a root at which a path stands.
pub record Below (root_abs p : Text) : Type 0 where
  pub names : List Text
  pub root_rooted : (parse root_abs).rooted ≡ true
  pub rooted : (parse p).rooted ≡ true
  pub elements : (parse p).elements ≡ (parse root_abs).elements ++ names
  pub all_names : All IsName (parse p).elements
  pub text : p ≡ render (parse p)

rooted_of :
    (p : Text) (es : List Text)
    → p ≡ render (rooted_path es)
    → All IsName es
    → parse p ≡ rooted_path es
rooted_of p es e h = rw e (parse-render_rooted es h)

-- What `EnsureUnderRoot` returns lies below the absolute root; the working directory is a rooted path.
pub ensure_under_root_confined :
    (cwd : Option Text) (root candidate : Text) {p : Text}
    → RootedCwd cwd
    → ensure_under_root cwd root candidate ≡ ok p
    → (root_abs : Text) × (abs cwd root ≡ some root_abs) × Below root_abs p
ensure_under_root_confined cwd root candidate {p} w e =
    let (root_abs, hr, hc) = ensure_returns cwd root candidate e in
    let k = compared cwd root candidate root_abs p w hr hc in
    let pr = rooted_of root_abs k.base k.base_text k.base_names in
    let pt = rooted_of p k.targ k.targ_text k.targ_names in
    elim k.verdict [
      | inl (x, _) ↦ (
        root_abs,
        hr,
        record {
          names = x.0;
          root_rooted = rw pr;
          rooted = rw pt;
          elements = rw (pr, pt) x.1;
          all_names = rw pt k.targ_names;
          text = rw pt k.targ_text;
        },
      )
      | inr (n, e') ↦ absurd (ground arith)
    ]

-- What `SafeJoinUnder` returns is an absolute path, in its cleaned form, whose elements are those
-- of the absolute root followed by names, and no `.`, `..` or empty element; the working directory
-- is a rooted path.
pub safe_join_under_confined :
    (cwd : Option Text) (root r : Text) {p : Text}
    → RootedCwd cwd
    → safe_join_under cwd root r ≡ ok p
    → (root_abs : Text) × (abs cwd root ≡ some root_abs) × Below root_abs p
unfolding safe_join_under
safe_join_under_confined cwd root r {p} w h =
    let (c, _, e) = >>=-eq-ok (clean_relative_path r) _ h in
    ensure_under_root_confined cwd root (join root c) w e
