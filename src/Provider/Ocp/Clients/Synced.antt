-- ===== src/Provider/Ocp/Clients/Synced.antt =====
-- Whether a sync can download the plan of the OpenShift clients.
use ocp_offline.Ocp.Releases.{GraphEnv, GraphEntry}
use ocp_offline.Prelude.{
  ℕ, ◌≡◌, ◌⊎◌, ◌↔◌, refl, Bool, true, false, ◌&&◌, if◌then◌else◌, is_empty, ◌∙◌, subst, Text, List,
  [], ◌∷◌, ◌++◌, All, All-append, Option, none, some, ok, >>=-eq-ok, map_err-ok, ok-injective, Map,
  lookup, Sorter,
}
use ocp_offline.Safety.Path.{is_abs, clean_relative_path, safe_join_under}
use ocp_offline.Safety.Path.Split.{join_with}
use ocp_offline.Safety.Path.Confined.{IsName}
use ocp_offline.Safety.Path.Containment.{RootedCwd}
use ocp_offline.Download.Pool.{Job}
use ocp_offline.Provider.{SyncAction, SyncPlan}
use ocp_offline.Engine.Sync.Actions.{download_jobs, is_fetch, count_actions}
use ocp_offline.Engine.Sync.Placed.{Placed}
use ocp_offline.Provider.Ocp.Placed.{
  action_at-put, IsAt, joined-Joins, Placed-below, elements_of, output-IsAt, sync_iff,
}
use ocp_offline.Ocp.Manifest.{ClientArtifact}
use ocp_offline.Provider.Ocp.{OcpEnv, file_path, ocp_action_at}
use ocp_offline.Provider.Ocp.Clients.{
  ClientsConfig, unchecked, plan_artifact, artifact_actions, version_artifacts, plan_manifest,
  version_dir, client_actions, output_root, plan_versions_of, plan_clients, resolve_versions,
}
use ocp_offline.Provider.Ocp.Judged.{file_path-ok}

plan_artifact-put :
    (env : OcpEnv) (a : ClientArtifact) (path local_path : Text) (found : Option Text)
    → (plan_artifact env a path local_path found).local_path ≡ local_path
unfolding plan_artifact
plan_artifact-put env a path local_path none =
    action_at-put env path local_path a.checksum a.url none
plan_artifact-put env a path local_path (some content) =
    picked (is_empty a.checksum && env.can_stat local_path)
  where
    picked :
        (b : Bool)
        → (if b
            then unchecked a path local_path content
            else ocp_action_at env path local_path a.checksum a.url (some content)).local_path
          ≡ local_path
    picked true = refl
    picked false = action_at-put env path local_path a.checksum a.url (some content)

module _ (env : OcpEnv) (w : RootedCwd env.cwd) (disk : Map Text) (ds : List Text) (out : Text)
    (at_out : IsAt ds out) where
  artifacts-Placed :
      (dir : Text) (es : List Text) (artifacts : List ClientArtifact) (as' : List SyncAction)
      → IsAt (ds ++ es) dir
      → artifact_actions env out dir disk artifacts ≡ ok as'
      → All (Placed ds) as'
  unfolding artifact_actions
  artifacts-Placed dir es [] as' d h = subst (All (Placed ds)) (ok-injective h) tt
  artifacts-Placed dir es (a ∷ artifacts) as' d h =
      let ((path, local_path), e, p) = >>=-eq-ok (file_path env out dir a.name) _ h in
      let (more, q, r) = >>=-eq-ok (artifact_actions env out dir disk artifacts) _ p in
      let j =
        joined-Joins env.cwd dir local_path a.name (ds ++ es) w d
          (file_path-ok env out dir a.name path local_path e).0 in
      subst (All (Placed ds)) (ok-injective r) (
        Placed-below ds es j.first j.others _ j.at.names
            (plan_artifact-put env a path local_path (lookup local_path disk) ∙ j.text),
        artifacts-Placed dir es artifacts more d q,
      )

  manifest-Placed :
      (dir : Text) (es : List Text) (chosen : Option (List ClientArtifact)) (as' : List SyncAction)
      → IsAt (ds ++ es) dir
      → plan_manifest env out dir disk chosen ≡ ok as'
      → All (Placed ds) as'
  manifest-Placed dir es none as' d h = subst (All (Placed ds)) (ok-injective h) tt
  manifest-Placed dir es (some artifacts) as' d h = artifacts-Placed dir es artifacts as' d h

  client_actions-Placed :
      (sorter : Sorter) (cfg : ClientsConfig) (versions : List Text) (as' : List SyncAction)
      → client_actions sorter env cfg out disk versions ≡ ok as'
      → All (Placed ds) as'
  unfolding client_actions
  client_actions-Placed sorter cfg [] as' h = subst (All (Placed ds)) (ok-injective h) tt
  client_actions-Placed sorter cfg (v ∷ versions) as' h =
      let chosen = version_artifacts sorter env cfg v in
      let (dir, d, p) = >>=-eq-ok (version_dir env out v) _ h in
      let (these, q, p') = >>=-eq-ok (plan_manifest env out dir disk chosen) _ p in
      let (more, q', e) = >>=-eq-ok (client_actions sorter env cfg out disk versions) _ p' in
      let j =
        joined-Joins env.cwd out dir v ds w at_out
          (map_err-ok _ (safe_join_under env.cwd out v) d) in
      subst (All (Placed ds)) (ok-injective e) (
        All-append (Placed ds) these more
          (manifest-Placed dir (j.first ∷ j.others) chosen these j.at q)
          (client_actions-Placed sorter cfg versions more q'))

module _ (sorter : Sorter) (env : OcpEnv) (name : Text) (cfg : ClientsConfig) (disk : Map Text)
    (w : RootedCwd env.cwd) (absolute : is_abs env.data_dir ≡ true) (first : Text)
    (others : List Text) (names : All IsName (first ∷ others))
    (cleaned : clean_relative_path cfg.output_dir ≡ ok (join_with b'/' (first ∷ others))) where
  planned-Placed :
      (versions : List Text) (plan : SyncPlan)
      → plan_versions_of sorter env name cfg disk versions ≡ ok plan
      → All (Placed (elements_of env.data_dir ++ first ∷ others)) plan.actions
  unfolding plan_versions_of
  planned-Placed [] plan h =
      subst (λ (p : SyncPlan). All (Placed (elements_of env.data_dir ++ first ∷ others)) p.actions)
        (ok-injective h) tt
  planned-Placed (v ∷ vs) plan h =
      let (out, o, k) = >>=-eq-ok (output_root env cfg) _ h in
      let (as', e, p) = >>=-eq-ok (client_actions sorter env cfg out disk (v ∷ vs)) _ k in
      subst (λ (p : SyncPlan). All (Placed (elements_of env.data_dir ++ first ∷ others)) p.actions)
        (ok-injective p)
        (client_actions-Placed env w disk (elements_of env.data_dir ++ first ∷ others) out
          (output-IsAt env.cwd env.data_dir w absolute first others cfg.output_dir out names cleaned
            (map_err-ok _ (safe_join_under env.cwd env.data_dir cfg.output_dir) o))
          sorter cfg (v ∷ vs) as' e)

  -- Below an absolute data directory, and for a name and an output directory that are made of plain
  -- names, SyncProvider can build the downloads of a plan of the OpenShift clients exactly if the output
  -- directory is the one with the provider's name or lies below it, or if there is nothing to fetch.
  pub synced_iff :
      (graph : ℕ → GraphEnv) (cache : Map GraphEntry) (plan : SyncPlan) (root : Text)
      → IsName name
      → safe_join_under env.cwd env.data_dir name ≡ ok root
      → (plan_clients sorter graph env name (some cfg) disk cache).0 ≡ ok plan
      → ((jobs : List Job) × (download_jobs env.cwd root plan.actions ≡ ok jobs))
        ↔ ((first ≡ name) ⊎ (count_actions is_fetch plan.actions ≡ 0))
  unfolding plan_clients
  synced_iff graph cache plan root n r h =
      sync_iff env.cwd env.data_dir w absolute first others name root plan.actions n r
        (planned-Placed (resolve_versions sorter graph cfg cache).0 plan h)
