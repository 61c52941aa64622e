-- ===== src/Safety/Path/Complete.antt =====
-- The paths that SafeJoinUnder of internal/safety/path.go accepts.
use mathlib.Core.List.{reverse_aux, reverse_aux-eq}
use ocp_offline.Prelude.{
  Text, codes, text_eq, Bool, true, ◌≡◌, refl, ap, sym, subst, ◌∙◌, List, [], ◌∷◌, ◌++◌, append-nil,
  All-append, All, Option, some, ok, has_prefix, >>=-eq-ok, ok-injective,
}
use ocp_offline.Safety.Path.Split.{split, join_with, split-append_sep, split-join_with}
use ocp_offline.Safety.Path.Resolve.{FilePath, push, push_all, resolve, parse, render}
use ocp_offline.Safety.Path.Confined.{IsName, parse-render_rooted, push_all-names, names-Lacks}
use ocp_offline.Safety.Path.{
  clean, is_abs, join, abs, clean_relative_path, ensure_under_root, safe_join_under,
}
use ocp_offline.Safety.Path.Containment.{RootedCwd, rooted_path, is_abs-append, join_abs, parse_abs}
use ocp_offline.Safety.Path.Relative.{
  clean_relative_path_fixed, clean_relative_path_names, clean_relative_path_idem,
}
use ocp_offline.Safety.Path.Guarantees.{ensure_under_root_iff}

push_all-append :
    (rooted : Bool) (out xs ys : List Text)
    → push_all rooted out (xs ++ ys) ≡ push_all rooted (push_all rooted out xs) ys
unfolding push_all
push_all-append rooted out [] ys = refl
push_all-append rooted out (x ∷ xs) ys = push_all-append rooted (push rooted out x) xs ys

reverse_aux-reverse_aux :
    (xs ys zs : List Text) → reverse_aux (reverse_aux xs ys) zs ≡ reverse_aux ys (xs ++ zs)
reverse_aux-reverse_aux [] ys zs = refl
reverse_aux-reverse_aux (x ∷ xs) ys zs = reverse_aux-reverse_aux xs (x ∷ ys) zs

resolve-append_names :
    (xs ys : List Text) → All IsName ys → resolve true (xs ++ ys) ≡ resolve true xs ++ ys
unfolding resolve
resolve-append_names xs ys h =
    let out = push_all true [] xs in
    rw (push_all-append true [] xs ys, push_all-names true out ys h)
      (reverse_aux-reverse_aux ys out [] ∙ rw append-nil (reverse_aux-eq out ys))

is_abs_prefix : (p : Text) → is_abs p ≡ true → has_prefix p (codes "/") ≡ true
unfolding is_abs
is_abs_prefix p h = h

-- The elements of a rooted path with a relative one behind it.
parse_joined :
    (root : Text) (e : Text) (es : List Text)
    → is_abs root ≡ true
    → All IsName (e ∷ es)
    → parse (root ++ b'/' ∷ join_with b'/' (e ∷ es)) ≡ rooted_path ((parse root).elements ++ e ∷ es)
unfolding parse
parse_joined root e es a h =
    let s = join_with b'/' (e ∷ es) in
    rw (
      is_abs_prefix (root ++ b'/' ∷ s) (is_abs-append root (b'/' ∷ s) a),
      is_abs_prefix root a,
      split-append_sep b'/' root s,
      split-join_with b'/' e es (names-Lacks (e ∷ es) h),
      resolve-append_names (split b'/' root) (e ∷ es) h,
    )

pub abs_rooted : (cwd : Option Text) (p : Text) → is_abs p ≡ true → abs cwd p ≡ some (clean p)
unfolding abs
abs_rooted cwd p h = rw h

pub clean_of : (p : Text) (f : FilePath) → parse p ≡ f → clean p ≡ render f
unfolding clean
clean_of p f e = ap render e

pub is_abs-render : (es : List Text) → is_abs (render (rooted_path es)) ≡ true
unfolding is_abs render has_prefix
is_abs-render es = refl

-- A rooted path of names is accepted below a root whose elements it goes on from.
ensure-extended :
    (cwd : Option Text) (root : Text) (bs ns : List Text)
    → RootedCwd cwd
    → is_abs root ≡ true
    → parse root ≡ rooted_path bs
    → All IsName bs
    → All IsName ns
    → ensure_under_root cwd root (render (rooted_path (bs ++ ns)))
      ≡ ok (render (rooted_path (bs ++ ns)))
ensure-extended cwd root bs ns w a pr nb nn =
    let target = render (rooted_path (bs ++ ns)) in
    let both : All IsName (bs ++ ns) = All-append IsName bs ns nb nn in
    let pt : parse target ≡ rooted_path (bs ++ ns) = parse-render_rooted (bs ++ ns) both in
    let hr : abs cwd root ≡ some (render (rooted_path bs)) =
      rw (abs_rooted cwd root a, clean_of root _ pr) in
    let ht : abs cwd target ≡ some target =
      rw (abs_rooted cwd target (is_abs-render (bs ++ ns)), clean_of target _ pt) in
    (ensure_under_root_iff cwd root target (render (rooted_path bs)) target w hr ht).1 (
      ns,
      ap (λ f. f.elements) pt
          ∙ ap (λ xs. xs ++ ns) (sym (ap (λ f. f.elements) (parse-render_rooted bs nb))),
    )

-- filepath.Clean of a rooted path with a relative one behind it.
pub clean-joined :
    (root e : Text) (es : List Text)
    → is_abs root ≡ true
    → All IsName (e ∷ es)
    → clean (root ++ b'/' ∷ join_with b'/' (e ∷ es))
      ≡ render (rooted_path ((parse root).elements ++ e ∷ es))
clean-joined root e es a h = clean_of _ _ (parse_joined root e es a h)

-- Below an absolute root, every relative path of names is accepted, and the result has the
-- elements of the root followed by the names.
pub safe_join_under_complete :
    (cwd : Option Text) (root e : Text) (es : List Text)
    → RootedCwd cwd
    → is_abs root ≡ true
    → All IsName (e ∷ es)
    → safe_join_under cwd root (join_with b'/' (e ∷ es))
      ≡ ok (render (rooted_path ((parse root).elements ++ e ∷ es)))
unfolding safe_join_under
safe_join_under_complete cwd root e es w a h =
    let s = join_with b'/' (e ∷ es) in
    let (bs, nb, pr) = parse_abs root a in
    let joined : join root s ≡ render (rooted_path (bs ++ e ∷ es)) =
      join_abs root s a ∙ clean_of _ _ (parse_joined root e es a h ∙ rw pr) in
    rw (clean_relative_path_fixed e es h, joined, pr)
      (ensure-extended cwd root bs (e ∷ es) w a pr nb h)

-- What an accepted path comes to: names, and the elements of the result.
pub record Joined (root p q : Text) : Type 0 where
  pub first : Text
  pub others : List Text
  pub names : All IsName (first ∷ others)
  pub cleaned : clean_relative_path p ≡ ok (join_with b'/' (first ∷ others))
  pub text : q ≡ render (rooted_path ((parse root).elements ++ first ∷ others))
  pub parsed : parse q ≡ rooted_path ((parse root).elements ++ first ∷ others)

pub safe_join_under-Joined :
    (cwd : Option Text) (root p : Text) {q : Text}
    → RootedCwd cwd
    → is_abs root ≡ true
    → safe_join_under cwd root p ≡ ok q
    → Joined root p q
unfolding safe_join_under
safe_join_under-Joined cwd root p {q} w a h =
    let (c, hc, he) = >>=-eq-ok (clean_relative_path p) _ h in
    let (e, es, names, x) = clean_relative_path_names p hc in
    let (bs, nb, pr) = parse_abs root a in
    let all : All IsName ((parse root).elements ++ e ∷ es) =
      subst (λ ds. All IsName (ds ++ e ∷ es)) (sym (ap (λ (f : FilePath). f.elements) pr))
        (All-append IsName bs (e ∷ es) nb names) in
    let again : safe_join_under cwd root c ≡ ok q = rw (clean_relative_path_idem p hc) he in
    let same : q ≡ render (rooted_path ((parse root).elements ++ e ∷ es)) = ok-injective (
      sym again
      ∙ ap (λ t. safe_join_under cwd root t) x
      ∙ safe_join_under_complete cwd root e es w a names) in
    record {
      first = e;
      others = es;
      names = names;
      cleaned = subst (λ t. clean_relative_path p ≡ ok t) x hc;
      text = same;
      parsed = ap parse same ∙ parse-render_rooted _ all;
    }
