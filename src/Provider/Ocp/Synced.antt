-- ===== src/Provider/Ocp/Synced.antt =====
-- Whether a sync can download the plan of the OpenShift binaries.
use ocp_offline.Prelude.{
  ◌≡◌, ◌⊎◌, ◌↔◌, refl, ◌∙◌, sym, subst, Text, true, List, [], ◌∷◌, ◌++◌, All, All-append, some,
  Result, ok, err, >>=-eq-ok, map_err, map_err-ok, ok-injective, Map, lookup,
}
use ocp_offline.Safety.Path.{is_abs, clean_relative_path, safe_join_under}
use ocp_offline.Safety.Path.Split.{join_with}
use ocp_offline.Safety.Path.Confined.{IsName}
use ocp_offline.Safety.Path.Containment.{RootedCwd}
use ocp_offline.Download.Pool.{Job}
use ocp_offline.Provider.{SyncAction, SyncPlan}
use ocp_offline.Provider.Epel.{add_actions}
use ocp_offline.Engine.Sync.Actions.{download_jobs, is_fetch, count_actions}
use ocp_offline.Engine.Sync.Placed.{Placed}
use ocp_offline.Provider.Ocp.{
  OcpEnv, OcpConfig, OcpError, version_url, file_path, file_actions, version_dirs, build_sync_plan,
  remote_files, plan_versions, plan_ocp,
}
use ocp_offline.Provider.Ocp.Judged.{file_path-ok}
use ocp_offline.Provider.Ocp.Placed.{
  action_at-put, IsAt, joined-Joins, Placed-below, elements_of, output-IsAt, sync_iff,
}

module _ (env : OcpEnv) (cfg : OcpConfig) (disk : Map Text) (w : RootedCwd env.cwd)
    (ds : List Text) where
  files-Placed :
      (version out dir : Text) (es : List Text) (files : Map Text) (as' : List SyncAction)
      → IsAt (ds ++ es) dir
      → file_actions env cfg.base_url version out dir disk files ≡ ok as'
      → All (Placed ds) as'
  unfolding file_actions
  files-Placed version out dir es [] as' d h = subst (All (Placed ds)) (ok-injective h) tt
  files-Placed version out dir es ((file, checksum) ∷ files) as' d h =
      let ((path, local_path), e, p) = >>=-eq-ok (file_path env out dir file) _ h in
      let (more, q, r) = >>=-eq-ok (file_actions env cfg.base_url version out dir disk files) _ p in
      let j =
        joined-Joins env.cwd dir local_path file (ds ++ es) w d
          (file_path-ok env out dir file path local_path e).0 in
      let put =
        action_at-put env path local_path checksum (version_url cfg.base_url version file)
          (lookup local_path disk) in
      subst (All (Placed ds)) (ok-injective r) (
        Placed-below ds es j.first j.others _ j.at.names (put ∙ j.text),
        files-Placed version out dir es files more d q,
      )

  build-Placed :
      (version : Text) (files : Map Text) (as' : List SyncAction)
      → ((out : Text) → safe_join_under env.cwd env.data_dir cfg.output_dir ≡ ok out → IsAt ds out)
      → build_sync_plan env cfg.base_url version cfg.output_dir files disk ≡ ok as'
      → All (Placed ds) as'
  unfolding build_sync_plan version_dirs
  build-Placed version files as' at_out h =
      let ((out', dir'), e, p) = >>=-eq-ok (version_dirs env cfg.output_dir version) _ h in
      let (out, o, f) =
        >>=-eq-ok (map_err _ (safe_join_under env.cwd env.data_dir cfg.output_dir)) _ e in
      let (dir, d, q) = >>=-eq-ok (map_err _ (safe_join_under env.cwd out version)) _ f in
      let planned =
        subst
          (λ (x : Text × Text). file_actions env cfg.base_url version x.0 x.1 disk files ≡ ok as')
          (sym (ok-injective q)) p in
      let j =
        joined-Joins env.cwd out dir version ds w (at_out out (map_err-ok _ _ o))
          (map_err-ok _ _ d) in
      files-Placed version out dir (j.first ∷ j.others) files as' j.at planned

  add_actions-Placed :
      (plan : SyncPlan) (r : Result OcpError (List SyncAction))
      → All (Placed ds) plan.actions
      → ((as' : List SyncAction) → r ≡ ok as' → All (Placed ds) as')
      → All (Placed ds) (add_actions plan r).actions
  add_actions-Placed plan (err e) h k = h
  add_actions-Placed plan (ok as') h k = All-append (Placed ds) plan.actions as' h (k as' refl)

  plan_versions-Placed :
      (versions : List Text) (plan : SyncPlan)
      → ((out : Text) → safe_join_under env.cwd env.data_dir cfg.output_dir ≡ ok out → IsAt ds out)
      → All (Placed ds) plan.actions
      → All (Placed ds) (plan_versions env cfg disk versions plan).actions
  unfolding plan_versions
  plan_versions-Placed [] plan at_out h = h
  plan_versions-Placed (v ∷ versions) plan at_out h = plan_versions-Placed versions _ at_out (
      add_actions-Placed plan _ h (λ as' e.
        let (files, f, p) = >>=-eq-ok (remote_files env cfg v) _ e in
        build-Placed v files as' at_out p))

-- Below an absolute data directory, and for a name and an output directory that are made of plain
-- names, SyncProvider can build the downloads of a plan of the OpenShift binaries exactly if the output
-- directory is the one with the provider's name or lies below it, or if there is nothing to fetch.
pub plan_ocp-sync_iff :
    (env : OcpEnv) (cfg : OcpConfig) (name : Text) (disk : Map Text) (first : Text)
    (others : List Text) (plan : SyncPlan) (root : Text)
    → RootedCwd env.cwd
    → is_abs env.data_dir ≡ true
    → All IsName (first ∷ others)
    → clean_relative_path cfg.output_dir ≡ ok (join_with b'/' (first ∷ others))
    → IsName name
    → safe_join_under env.cwd env.data_dir name ≡ ok root
    → plan_ocp env name (some cfg) disk ≡ ok plan
    → ((jobs : List Job) × (download_jobs env.cwd root plan.actions ≡ ok jobs))
      ↔ ((first ≡ name) ⊎ (count_actions is_fetch plan.actions ≡ 0))
unfolding plan_ocp
plan_ocp-sync_iff env cfg name disk first others plan root w a names cleaned n r h =
    let ds = elements_of env.data_dir ++ first ∷ others in
    let placed =
      plan_versions-Placed env cfg disk w ds cfg.versions _
        (λ out. output-IsAt env.cwd env.data_dir w a first others cfg.output_dir out names cleaned)
        tt in
    sync_iff env.cwd env.data_dir w a first others name root plan.actions n r
      (subst (λ (p : SyncPlan). All (Placed ds) p.actions) (ok-injective h) placed)
