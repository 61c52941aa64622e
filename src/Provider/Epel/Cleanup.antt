-- ===== src/Provider/Epel/Cleanup.antt =====
-- What a plan with cleanup deletes.
use ocp_offline.Prelude.{
  ℕ, ◌≡◌, refl, sym, ap, ◌∙◌, Text, text_eq, text_beq_iff, Bool, true, false, not, List, [], ◌∷◌,
  Option, none, some, Result, ok, err, >>=-eq-ok, ok-injective, All, All-append, ◌==◌,
  if◌then◌else◌, Map, lookup, arith, Bool-cases, inl, inr,
}
use ocp_offline.Safety.Path.{PathError, clean_relative_path, rel}
use ocp_offline.Provider.{SyncAction}
use ocp_offline.Engine.Sync.Actions.{is_delete}
use ocp_offline.Provider.Epel.Metadata.{PackageInfo, EpelEnv}
use ocp_offline.Provider.Epel.{
  EpelRepo, action_at, package_actions, is_remote, with_deletion, deletions, find_deleted,
  repo_actions,
}
use ocp_offline.Provider.Epel.Agreement.{build_action-Built, with_action-ok}

-- An action deletes, or else its path is the location of a package.
abbrev pub DeletesUnlisted : List PackageInfo → SyncAction → Type 0
DeletesUnlisted pkgs a = is_delete a.action ≡ not (is_remote a.path pkgs)

module _ (pkgs : List PackageInfo) where
  with_deletion-DeletesUnlisted :
      (size : ℕ) (path : Option Text) (rest : List SyncAction)
      → All (DeletesUnlisted pkgs) rest
      → All (DeletesUnlisted pkgs) (with_deletion pkgs size path rest)
  with_deletion-DeletesUnlisted size none rest h = h
  with_deletion-DeletesUnlisted size (some path) rest h = elim (Bool-cases (is_remote path pkgs)) [
    | inl e ↦ rw e h
    | inr e ↦ rw e (rw e refl, h)
  ]

  deletions-DeletesUnlisted :
      (out : Text) (files : List (Text × ℕ)) → All (DeletesUnlisted pkgs) (deletions out pkgs files)
  unfolding deletions
  deletions-DeletesUnlisted out [] = tt
  deletions-DeletesUnlisted out ((path, size) ∷ files) =
      with_deletion-DeletesUnlisted size (rel out path) _ (deletions-DeletesUnlisted out files)

-- The packages that were walked are those of a longer list.
abbrev IsPart : List PackageInfo → List PackageInfo → Type 0
IsPart front pkgs = (path : Text) → is_remote path front ≡ true → is_remote path pkgs ≡ true

action_at-keeps :
    (env : EpelEnv) (repo : EpelRepo) (fast : Bool) (pkg : PackageInfo) (loc path : Text)
    (found : Option Text)
    → ((action_at env repo fast pkg loc path found).path ≡ loc)
      × (is_delete (action_at env repo fast pkg loc path found).action ≡ false)
unfolding action_at
action_at-keeps env repo fast pkg loc path none = (refl, refl)
action_at-keeps env repo fast pkg loc path (some content) = ground arith

is_remote-here :
    (path : Text) (pkg : PackageInfo) (pkgs : List PackageInfo)
    → clean_relative_path pkg.location ≡ ok path
    → is_remote path (pkg ∷ pkgs) ≡ true
unfolding is_remote
is_remote-here path pkg pkgs h = rw (h, (text_beq_iff path path).1 refl) refl

is_remote-there :
    (path : Text) (pkg : PackageInfo) (pkgs : List PackageInfo) (r : Result PathError Text)
    → clean_relative_path pkg.location ≡ r
    → is_remote path pkgs ≡ true
    → is_remote path (pkg ∷ pkgs) ≡ true
unfolding is_remote
is_remote-there path pkg pkgs (err e) h k = rw h k
is_remote-there path pkg pkgs (ok loc) h k =
    rw (h, k) (elim (Bool-cases (loc == path)) [ inl e ↦ rw e | inr e ↦ rw e ])

module _ (env : EpelEnv) (repo : EpelRepo) (out : Text) (disk : Map Text) (fast : Bool)
    (all : List PackageInfo) where
  package_actions-DeletesUnlisted :
      (pkgs : List PackageInfo) (as' : List SyncAction)
      → IsPart pkgs all
      → package_actions env repo out disk fast pkgs ≡ ok as'
      → All (DeletesUnlisted all) as'
  unfolding package_actions
  package_actions-DeletesUnlisted [] as' part h = rw (← ok-injective h) tt
  package_actions-DeletesUnlisted (pkg ∷ pkgs) as' part h =
      let (a, as'', p, q, e) = with_action-ok pkg _ _ as' h in
      let b = build_action-Built env repo out disk fast pkg a p in
      let (k, n) = action_at-keeps env repo fast pkg b.loc b.path (lookup b.path disk) in
      let at_loc : a.path ≡ b.loc = ap (λ (x : SyncAction). x.path) b.action ∙ k in
      let kept : is_delete a.action ≡ false =
        ap (λ (x : SyncAction). is_delete x.action) b.action ∙ n in
      let listed : is_remote a.path all ≡ true =
        part a.path (is_remote-here a.path pkg pkgs (b.clean ∙ ap (λ t. ok t) (sym at_loc))) in
      rw e (
        kept ∙ ap (λ t. not t) (sym listed),
        package_actions-DeletesUnlisted pkgs as''
            (λ path r. part path (is_remote-there path pkg pkgs _ refl r)) q,
      )

-- A plan for a repository deletes exactly what its metadata does not list: of each action of the plan,
-- it is a deletion if and only if no package has its path, with cleanup or without, and whether or
-- not the metadata changed.
pub repo_actions-DeletesUnlisted :
    (env : EpelEnv) (cleanup : Bool) (repo : EpelRepo) (out : Text) (disk : Map Text)
    (pkgs : List PackageInfo) (modified : Bool) (as' : List SyncAction)
    → repo_actions env cleanup repo out disk (ok (pkgs, modified)) ≡ ok as'
    → All (DeletesUnlisted pkgs) as'
unfolding repo_actions find_deleted
repo_actions-DeletesUnlisted env cleanup repo out disk pkgs modified as' h =
    let (front, p, q) = >>=-eq-ok (package_actions env repo out disk (not modified) pkgs) _ h in
    let kept =
      package_actions-DeletesUnlisted env repo out disk (not modified) pkgs pkgs front (λ path r. r)
        p in
    rw (← ok-injective q) (All-append (DeletesUnlisted pkgs) front _ kept (cleaned_up cleanup))
  where
    cleaned_up :
        (b : Bool)
        → All (DeletesUnlisted pkgs) (if b then deletions out pkgs (env.walk out disk) else [])
    cleaned_up true = deletions-DeletesUnlisted pkgs out (env.walk out disk)
    cleaned_up false = tt
