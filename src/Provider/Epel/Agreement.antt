-- ===== src/Provider/Epel/Agreement.antt =====
-- What a plan and a validation find for the same packages on the same disk.
use ocp_offline.Prelude.{
  ◌≡◌, refl, sym, ap, ◌∙◌, subst, Text, text_eq, Bool, false, List, [], ◌∷◌, append-nil, Option,
  none, some, Result, ok, err, >>=-eq-ok, ok-injective, ◌==◌, Map, lookup, arith, Bool-cases, inl,
  inr,
}
use ocp_offline.Safety.Path.{PathError, clean_relative_path, safe_join_under}
use ocp_offline.Provider.{SyncAction, ValidationReport}
use ocp_offline.Provider.Agreement.{Judges, Agrees, add_result-Judges}
use ocp_offline.Engine.Sync.Actions.{count_actions}
use ocp_offline.Provider.Epel.Metadata.{PackageInfo, EpelEnv, EpelError}
use ocp_offline.Provider.Epel.{
  EpelRepo, action_at, package_path, build_action, with_action, package_actions,
}
use ocp_offline.Provider.Epel.Validation.{
  validate_file, validate_package, validate_packages, validate_at,
}

-- An action that was built.
pub record Built (env : EpelEnv) (repo : EpelRepo) (out : Text) (disk : Map Text) (fast : Bool)
    (pkg : PackageInfo) (a : SyncAction) : Type 0 where
  pub loc : Text
  pub path : Text
  pub clean : clean_relative_path pkg.location ≡ ok loc
  pub joined : safe_join_under env.cwd out loc ≡ ok path
  pub action : a ≡ action_at env repo fast pkg loc path (lookup path disk)

pub build_action-Built :
    (env : EpelEnv) (repo : EpelRepo) (out : Text) (disk : Map Text) (fast : Bool)
    (pkg : PackageInfo) (a : SyncAction)
    → build_action env repo out disk fast pkg ≡ ok a
    → Built env repo out disk fast pkg a
unfolding build_action package_path
build_action-Built env repo out disk fast pkg a h =
    let (x, p, q) = >>=-eq-ok (package_path env out pkg.location) _ h in
    let (l, c, r) = >>=-eq-ok (clean_relative_path pkg.location) _ p in
    let (t, s, o) = >>=-eq-ok (safe_join_under env.cwd out l) _ r in
    let same : x ≡ (l, t) = sym (ok-injective o) in
    record {
      loc = l;
      path = t;
      clean = c;
      joined = s;
      action =
          sym (ok-injective q)
          ∙ ap (λ (y : Text × Text). action_at env repo fast pkg y.0 y.1 (lookup y.1 disk)) same;
    }

pub with_action-ok :
    (pkg : PackageInfo) (u : Result PathError SyncAction) (v : Result EpelError (List SyncAction))
    (as' : List SyncAction)
    → with_action pkg u v ≡ ok as'
    → (a : SyncAction) × (as'' : List SyncAction) × (u ≡ ok a) × (v ≡ ok as'') × (as' ≡ a ∷ as'')
with_action-ok pkg (err e) v as' h = absurd (cc h)
with_action-ok pkg (ok a) (err e) as' h = absurd (cc h)
with_action-ok pkg (ok a) (ok rest) as' h = (a, rest, refl, refl, sym (ok-injective h))

module _ (env : EpelEnv) (repo : EpelRepo) (out : Text) (disk : Map Text) where
  file-Judges :
      (pkg : PackageInfo) (loc path : Text) (found : Option Text)
      → Judges
          (validate_file env repo pkg loc path found)
          (action_at env repo false pkg loc path found)
  unfolding validate_file action_at
  file-Judges pkg loc path none = (refl, refl, refl)
  file-Judges pkg loc path (some content) = elim (Bool-cases (env.can_read path)) [
    | inr e ↦ rw e (refl, refl, refl)
    | inl e ↦ elim (Bool-cases (env.hash content == pkg.checksum)) [
      | inl h ↦ rw (e, h) (refl, refl)
      | inr h ↦ rw (e, h) (refl, refl, refl)
    ]
  ]

  package-Judges :
      (pkg : PackageInfo) (a : SyncAction)
      → build_action env repo out disk false pkg ≡ ok a
      → Judges (validate_package env repo out disk pkg) a
  unfolding validate_package
  package-Judges pkg a h =
      let b = build_action-Built env repo out disk false pkg a h in
      subst (λ x. Judges (validate_at env repo out disk pkg (clean_relative_path pkg.location)) x)
        (sym b.action) (rw (b.clean, b.joined) (file-Judges pkg b.loc b.path (lookup b.path disk)))

  -- A validation and a plan agree: for packages whose locations are safe, a full plan skips as many as
  -- the validation finds valid, and downloads or updates the ones that it finds invalid, in the same
  -- order; the same disk is there for both, and the validation is not cancelled.
  pub validate_packages-Agrees :
      (pkgs : List PackageInfo) (as' : List SyncAction) (report r : ValidationReport)
      → package_actions env repo out disk false pkgs ≡ ok as'
      → validate_packages env repo out disk pkgs report ≡ ok r
      → Agrees as' report r
  unfolding package_actions validate_packages count_actions
  validate_packages-Agrees [] as' report r h k =
      rw (← ok-injective h, ← ok-injective k)
        (record { valid = omega arith; invalid = sym (append-nil _) })
  validate_packages-Agrees (pkg ∷ pkgs) as' report r h k =
      elim (Bool-cases (env.is_done pkg.location)) [
        | inl d ↦ absurd (cc (rw d at k))
        | inr d ↦
            let (a, as'', p, q, e) = with_action-ok pkg _ _ as' h in
            rw e (
              add_result-Judges (validate_package env repo out disk pkg) a as'' report r
                (package-Judges pkg a p) (validate_packages-Agrees pkgs as'' _ r q (rw d at k)))
      ]
