-- ===== src/Provider/Ocp/Clients/Agreement.antt =====
-- What a plan and a validation of the OpenShift clients find on the same disk.
use ocp_offline.Prelude.{
  ℕ, Text, text_eq, List, [], ◌∷◌, Option, none, some, ok, >>=-eq-ok, ◌+◌, ok-injective, ◌≡◌, refl,
  sym, ap, ◌∙◌, subst, All, Map, lookup, Sorter,
}
use ocp_offline.Provider.{SyncAction, SyncPlan, ValidationReport}
use ocp_offline.Provider.Agreement.{Agrees, add_result-Judges, Agrees-nil, Agrees-append}
use ocp_offline.Provider.Ocp.{OcpEnv, file_path, ocp_validate_at, ocp_action_at, count_result}
use ocp_offline.Provider.Ocp.Judged.{file_path-ok, recounted, ocp_file-Judges}
use ocp_offline.Ocp.Releases.{GraphEnv, GraphEntry}
use ocp_offline.Ocp.Manifest.{ClientArtifact}
use ocp_offline.Provider.Ocp.Clients.{
  ClientsConfig, plan_artifact, artifact_actions, version_artifacts, plan_manifest, version_dir,
  client_actions, output_root, plan_versions_of, plan_clients, resolve_versions, validate_artifacts,
  validate_manifest, validate_clients_at, validate_clients,
}
use ocp_offline.Provider.Ocp.Clients.Hashes.{HasHash, version_artifacts-hashes}

plan_artifact-hashed :
    (env : OcpEnv) (a : ClientArtifact) (path local_path : Text) (found : Option Text)
    → HasHash a
    → plan_artifact env a path local_path found
      ≡ ocp_action_at env path local_path a.checksum a.url found
unfolding plan_artifact
plan_artifact-hashed env a path local_path none h = refl
plan_artifact-hashed env a path local_path (some content) h = rw h refl

module _ (env : OcpEnv) (out : Text) (disk : Map Text) where
  artifacts-Agrees :
      (version dir : Text) (artifacts : List ClientArtifact) (as' : List SyncAction)
      (report r : ValidationReport)
      → All HasHash artifacts
      → artifact_actions env out dir disk artifacts ≡ ok as'
      → validate_artifacts env version out dir disk artifacts report ≡ ok r
      → Agrees as' report r
  unfolding artifact_actions validate_artifacts
  artifacts-Agrees version dir [] as' report r n h k =
      rw (← ok-injective h, ← ok-injective k) (Agrees-nil report)
  artifacts-Agrees version dir (a ∷ artifacts) as' report r (n, ns) h k =
      let ((path, local_path), e, p) = >>=-eq-ok (file_path env out dir a.name) _ h in
      let (more, e', p') = >>=-eq-ok (artifact_actions env out dir disk artifacts) _ p in
      let (joined, related) = file_path-ok env out dir a.name path local_path e in
      let found = lookup local_path disk in
      let judged = ocp_validate_at env path local_path a.checksum a.url found in
      let rest : validate_artifacts env version out dir disk artifacts (count_result judged report)
          ≡ ok r =
        rw (joined, related) at k in
      let same = ap (λ x. x ∷ more) (plan_artifact-hashed env a path local_path found n) in
      subst (λ bs. Agrees bs report r) (sym same ∙ ok-injective p')
        (recounted _ _ report r (
          add_result-Judges judged _ more (record report { total_files = report.total_files + 1 }) r
            (ocp_file-Judges env path local_path a.checksum a.url found)
            (artifacts-Agrees version dir artifacts more (count_result judged report) r ns e'
              rest)))

  manifest-Agrees :
      (version dir : Text) (chosen : Option (List ClientArtifact)) (as' : List SyncAction)
      (report r : ValidationReport)
      → ((artifacts : List ClientArtifact) → chosen ≡ some artifacts → All HasHash artifacts)
      → plan_manifest env out dir disk chosen ≡ ok as'
      → validate_manifest env version out dir disk report chosen ≡ ok r
      → Agrees as' report r
  manifest-Agrees version dir none as' report r n h k =
      rw (← ok-injective h, ← ok-injective k) (Agrees-nil report)
  manifest-Agrees version dir (some artifacts) as' report r n h k =
      artifacts-Agrees version dir artifacts as' report r (n artifacts refl) h k

  versions-Agrees :
      (sorter : Sorter) (cfg : ClientsConfig) (versions : List Text) (as' : List SyncAction)
      (report r : ValidationReport)
      → client_actions sorter env cfg out disk versions ≡ ok as'
      → validate_clients_at sorter env cfg out disk versions report ≡ ok r
      → Agrees as' report r
  unfolding client_actions validate_clients_at
  versions-Agrees sorter cfg [] as' report r h k =
      rw (← ok-injective h, ← ok-injective k) (Agrees-nil report)
  versions-Agrees sorter cfg (v ∷ versions) as' report r h k =
      let chosen = version_artifacts sorter env cfg v in
      let (dir, d, p) = >>=-eq-ok (version_dir env out v) _ h in
      let (these, q, p') = >>=-eq-ok (plan_manifest env out dir disk chosen) _ p in
      let (more, q', e) = >>=-eq-ok (client_actions sorter env cfg out disk versions) _ p' in
      let (mid, m, k') =
        >>=-eq-ok (validate_manifest env v out dir disk report chosen) _ (rw d at k) in
      subst (λ bs. Agrees bs report r) (ok-injective e)
        (Agrees-append these more report mid r
          (manifest-Agrees v dir chosen these report mid (version_artifacts-hashes sorter env cfg v)
            q m)
          (versions-Agrees sorter cfg versions more mid r q' k'))

abbrev pub blank_report : Text → ValidationReport
blank_report name = record { provider = name; total_files = 0; valid_files = 0; invalid_files = [] }

planned-Agrees :
    (sorter : Sorter) (env : OcpEnv) (name : Text) (cfg : ClientsConfig) (disk : Map Text)
    (versions : List Text) (out : Text) (plan : SyncPlan) (r : ValidationReport)
    → output_root env cfg ≡ ok out
    → plan_versions_of sorter env name cfg disk versions ≡ ok plan
    → validate_clients_at sorter env cfg out disk versions (blank_report name) ≡ ok r
    → Agrees plan.actions (blank_report name) r
unfolding plan_versions_of validate_clients_at
planned-Agrees sorter env name cfg disk [] out plan r o h k =
    rw (← ok-injective h, ← ok-injective k) (Agrees-nil (blank_report name))
planned-Agrees sorter env name cfg disk (v ∷ vs) out plan r o h k =
    let (as', e, p) = >>=-eq-ok (client_actions sorter env cfg out disk (v ∷ vs)) _ (rw o at h) in
    subst (λ (q : SyncPlan). Agrees q.actions (blank_report name) r) (ok-injective p)
      (versions-Agrees env out disk sorter cfg (v ∷ vs) as' (blank_report name) r e k)

-- A plan of the OpenShift clients and a validation on the same disk agree, if both succeed and the
-- servers answer both alike: the validation finds valid as many files as the plan skips, and the
-- invalid ones are those that the plan downloads or updates, in the same order.
pub validate_clients-Agrees :
    (sorter : Sorter) (graph : ℕ → GraphEnv) (env : OcpEnv) (name : Text) (cfg : ClientsConfig)
    (disk : Map Text) (cache : Map GraphEntry) (plan : SyncPlan) (r : ValidationReport)
    → (plan_clients sorter graph env name (some cfg) disk cache).0 ≡ ok plan
    → (validate_clients sorter graph env name (some cfg) disk cache).0 ≡ ok r
    → Agrees plan.actions (blank_report name) r
unfolding plan_clients validate_clients
validate_clients-Agrees sorter graph env name cfg disk cache plan r h k =
    let versions = (resolve_versions sorter graph cfg cache).0 in
    let (out, o, k') = >>=-eq-ok (output_root env cfg) _ k in
    planned-Agrees sorter env name cfg disk versions out plan r o h k'
