-- ===== src/Engine/Sync/Placed.antt =====
-- Which destinations of a plan SyncProvider of internal/engine/sync.go accepts: the ones below the
-- directory with the provider's name, wherever the provider's own output directory is.
use mathlib.Core.List.{append_cancel_left}
use mathlib.Core.Option.{some_inj}
use ocp_offline.Prelude.{
  ◌≡◌, ◌≢◌, ◌⊎◌, ◌↔◌, inl, inr, refl, sym, ap, ◌∙◌, subst, Text, text_eq, text_beq_iff, false, List,
  [], ◌∷◌, ◌++◌, append_assoc, All, Option, some, Result, ok, err, ◌==◌, is_empty, Bool-cases,
  arith,
}
use ocp_offline.Safety.Path.{PathError, abs, ensure_under_root}
use ocp_offline.Safety.Path.Resolve.{FilePath, parse, render}
use ocp_offline.Safety.Path.Confined.{IsName, parse-render_rooted}
use ocp_offline.Safety.Path.Containment.{RootedCwd, rooted_path, Extends}
use ocp_offline.Safety.Path.Guarantees.{ensure_under_root_iff, ensure_returns}
use ocp_offline.Safety.Path.Complete.{abs_rooted, clean_of, is_abs-render}
use ocp_offline.Download.Pool.{Job}
use ocp_offline.Provider.{SyncAction}
use ocp_offline.Engine.Sync.Actions.{resolve_path, download_jobs, is_fetch, count_actions}

-- The text of a rooted path of names.
abbrev pub at_path : List Text → Text
at_path es = render (rooted_path es)

is_empty-at_path : (es : List Text) → is_empty (at_path es) ≡ false
unfolding render
is_empty-at_path es = refl

abs-at_path :
    (cwd : Option Text) (es : List Text) → All IsName es → abs cwd (at_path es) ≡ some (at_path es)
abs-at_path cwd es h =
    abs_rooted cwd (at_path es) (is_abs-render es)
    ∙ ap some (clean_of (at_path es) (rooted_path es) (parse-render_rooted es h))

-- An action whose local path is that of these elements with more behind them.
pub record Placed (ds : List Text) (a : SyncAction) : Type 0 where
  pub rest : List Text
  pub names : All IsName (ds ++ rest)
  pub put : a.local_path ≡ at_path (ds ++ rest)

abbrev head_or : Text → List Text → Text
head_or t [] = t
head_or t (x ∷ xs) = x

module _ (cwd : Option Text) (w : RootedCwd cwd) (base : List Text) (name first : Text)
    (others : List Text) (nb : All IsName (base ++ name ∷ [])) where
  abbrev root : Text
  root = at_path (base ++ name ∷ [])

  ensured :
      (cs : List Text)
      → All IsName cs
      → (ensure_under_root cwd root (at_path cs) ≡ ok (at_path cs) → Extends (base ++ name ∷ []) cs)
        × (Extends (base ++ name ∷ []) cs
            → ensure_under_root cwd root (at_path cs) ≡ ok (at_path cs))
  ensured cs nc =
      let e : (parse root).elements ≡ base ++ name ∷ [] =
        ap (λ (f : FilePath). f.elements) (parse-render_rooted _ nb) in
      let e' : (parse (at_path cs)).elements ≡ cs =
        ap (λ (f : FilePath). f.elements) (parse-render_rooted cs nc) in
      let (there, back) =
        ensure_under_root_iff cwd root (at_path cs) root (at_path cs) w (abs-at_path cwd _ nb)
          (abs-at_path cwd cs nc) in
      (
        λ h.
            subst (λ xs. Extends xs cs) e
              (subst (λ ys. Extends (parse root).elements ys) e' (there h)),
        λ h. back (rw (e, e') h),
      )

  Extends-first :
      (rest : List Text)
      → Extends (base ++ name ∷ []) ((base ++ first ∷ others) ++ rest)
      → first ≡ name
  Extends-first rest (more, e) =
      let same : base ++ (first ∷ (others ++ rest)) ≡ base ++ (name ∷ more) =
        sym (append_assoc base (first ∷ others) rest) ∙ e ∙ append_assoc base (name ∷ []) more in
      ap (head_or name) (append_cancel_left base _ _ same)

  first-Extends :
      (rest : List Text)
      → first ≡ name
      → Extends (base ++ name ∷ []) ((base ++ first ∷ others) ++ rest)
  first-Extends rest e = (
    others ++ rest,
    append_assoc base (first ∷ others) rest
        ∙ ap (λ x. base ++ (x ∷ (others ++ rest))) e
        ∙ sym (append_assoc base (name ∷ []) (others ++ rest)),
  )

  abbrev IsPlaced : SyncAction → Type 0
  IsPlaced = Placed (base ++ first ∷ others)

  resolve-inside :
      (a : SyncAction) → first ≡ name → IsPlaced a → resolve_path cwd root a ≡ ok a.local_path
  unfolding resolve_path
  resolve-inside a e p =
      rw (p.put, is_empty-at_path ((base ++ first ∷ others) ++ p.rest))
        ((ensured _ p.names).1 (first-Extends p.rest e))

  resolve-outside :
      (a : SyncAction)
      → first ≢ name
      → IsPlaced a
      → (e : PathError) × (resolve_path cwd root a ≡ err e)
  unfolding resolve_path
  resolve-outside a n p =
      rw (p.put, is_empty-at_path ((base ++ first ∷ others) ++ p.rest))
        (refused ((base ++ first ∷ others) ++ p.rest) p.names (λ x. n (Extends-first p.rest x))
          (ensure_under_root cwd root (at_path ((base ++ first ∷ others) ++ p.rest))) refl)
    where
      refused :
          (cs : List Text)
          → All IsName cs
          → ¬ Extends (base ++ name ∷ []) cs
          → (r : Result PathError Text) → ensure_under_root cwd root (at_path cs) ≡ r
          → (e : PathError) × (r ≡ err e)
      refused cs nc away (err e) h = (e, refl)
      refused cs nc away (ok q) h =
          let (root_abs, _, t) = ensure_returns cwd root (at_path cs) h in
          let same : q ≡ at_path cs = some_inj.0 (sym t ∙ abs-at_path cwd cs nc) in
          absurd (away ((ensured cs nc).0 (h ∙ ap (λ x. ok x) same)))

  jobs-inside :
      (as' : List SyncAction)
      → first ≡ name
      → All IsPlaced as'
      → (jobs : List Job) × (download_jobs cwd root as' ≡ ok jobs)
  unfolding download_jobs
  jobs-inside [] e h = ([], refl)
  jobs-inside (a ∷ as') e (p, h) =
      let (jobs, j) = jobs-inside as' e h in
      elim (Bool-cases (is_fetch a.action)) [
        | inl f ↦ rw (f, resolve-inside a e p, j) (_, refl)
        | inr f ↦ rw f (jobs, j)
      ]

  -- Where no action fetches, the destinations are not looked at.
  jobs-idle :
      (as' : List SyncAction) → count_actions is_fetch as' ≡ 0 → download_jobs cwd root as' ≡ ok []
  unfolding download_jobs count_actions
  jobs-idle [] h = refl
  jobs-idle (a ∷ as') h = elim (Bool-cases (is_fetch a.action)) [
    | inl f ↦ absurd (ground (arith, f))
    | inr f ↦ rw f (jobs-idle as' (ground (arith, f)))
  ]

  jobs-outside :
      (as' : List SyncAction) (jobs : List Job)
      → first ≢ name
      → All IsPlaced as'
      → download_jobs cwd root as' ≡ ok jobs
      → count_actions is_fetch as' ≡ 0
  unfolding download_jobs count_actions
  jobs-outside [] jobs n h k = refl
  jobs-outside (a ∷ as') jobs n (p, h) k = elim (Bool-cases (is_fetch a.action)) [
    | inl f ↦ let (e, r) = resolve-outside a n p in absurd (cc (rw (f, r) at k))
    | inr f ↦ rw f (ground (arith, jobs-outside as' jobs n h (rw f at k)))
  ]

  -- The jobs of a plan whose files all lie below one directory can be built exactly if that directory
  -- is, or lies below, the one with the provider's name, or if there is nothing to fetch.
  pub download_jobs_iff :
      (as' : List SyncAction)
      → All IsPlaced as'
      → ((jobs : List Job) × (download_jobs cwd root as' ≡ ok jobs))
        ↔ ((first ≡ name) ⊎ (count_actions is_fetch as' ≡ 0))
  download_jobs_iff as' h = (
    λ x. elim (Bool-cases (first == name)) [
      | inl e ↦ inl ((text_beq_iff first name).0 e)
      | inr e ↦
          inr (jobs-outside as' x.0 (λ s. absurd (cc ((text_beq_iff first name).1 s, e))) h x.1)
    ],
    λ y. elim y [ inl e ↦ jobs-inside as' e h | inr z ↦ ([], jobs-idle as' z) ],
  )
