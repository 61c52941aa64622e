-- ===== src/Provider/Ocp/Clients.antt =====
-- internal/provider/ocp/clients_provider.go: the versions, the plan and the validation of the provider
-- of OpenShift clients, with the client service of internal/ocp. The n-th request for releases meets
-- `graph n`; the log and the callback of the validation's progress are not modelled.
pub mod Versions
pub mod Hashes
pub mod Agreement
pub mod Synced
use ocp_offline.Prelude.{
  ℕ, suc, ◌+◌, Text, codes, text_eq, Bool, true, false, not, ◌&&◌, List, [], ◌∷◌, ◌++◌, Option,
  none, some, Result, ok, err, ◌>>=◌, or_err, map_err, if◌then◌else◌, is_empty, length, Map, lookup,
  has, Sorter,
}
use ocp_offline.Safety.Path.{PathError, safe_join_under, rel, join}
use ocp_offline.Provider.{skip, SyncAction, SyncPlan, ValidationResult, ValidationReport}
use ocp_offline.Provider.Epel.{add_actions}
use ocp_offline.Provider.Ocp.{
  OcpEnv, OcpError, not_configured, invalid_output_dir, invalid_version, no_relative_path,
  file_action, ocp_action_at, file_path, invalid_file, ocp_validate_at, count_result,
}
use ocp_offline.Ocp.Semver.{sort_versions}
use ocp_offline.Ocp.Releases.{ReleasesResult, GraphEnv, GraphEntry, FetchError, fetch_releases}
use ocp_offline.Ocp.Manifest.{ClientArtifact, ManifestResult, filter_artifacts, fetch_manifest}

pub record ClientsConfig : Type 0 where
  pub channels : List Text
  pub versions : List Text
  pub platforms : List Text
  pub output_dir : Text

abbrev pub default_platforms : List Text → List Text
default_platforms [] = codes "linux" ∷ codes "linux-arm64" ∷ []
default_platforms (p ∷ ps) = p ∷ ps

-- The defaults of Configure, on the decoded settings.
unfoldable pub with_defaults : ClientsConfig → ClientsConfig
with_defaults cfg = record cfg {
  output_dir = if is_empty cfg.output_dir then codes "ocp-clients" else cfg.output_dir;
  platforms = default_platforms cfg.platforms;
}

-- The versions seen are the ones listed.
unfoldable pub add_versions : List Text → List Text → List Text
add_versions [] versions = versions
add_versions (v ∷ vs) versions =
    add_versions vs (if has v versions then versions else versions ++ v ∷ [])

abbrev pub add_releases : Result FetchError ReleasesResult → List Text → List Text
add_releases (err e) versions = versions
add_releases (ok found) versions = add_versions found.releases versions

module _ (sorter : Sorter) (graph : ℕ → GraphEnv) where
  -- The loop over the channels: one whose releases cannot be had is passed over.
  unfoldable pub resolve_channels :
      ℕ → List Text → List Text → Map GraphEntry → List Text × Map GraphEntry
  resolve_channels n [] versions cache = (versions, cache)
  resolve_channels n (channel ∷ channels) versions cache =
      let (found, cache') = fetch_releases sorter (graph n) channel cache in
      resolve_channels (suc n) channels (add_releases found versions) cache'

  -- resolveVersions, which never fails
  unfoldable pub resolve_versions : ClientsConfig → Map GraphEntry → List Text × Map GraphEntry
  resolve_versions cfg cache =
      let (versions, cache') = resolve_channels 0 cfg.channels [] cache in
      (sort_versions sorter (add_versions cfg.versions versions), cache')

abbrev pub unchecked : ClientArtifact → Text → Text → Text → SyncAction
unchecked a path local_path content =
    file_action path local_path [] a.url skip (length content)
      (codes "file exists (no checksum available)")

-- planArtifact
unfoldable pub plan_artifact : OcpEnv → ClientArtifact → Text → Text → Option Text → SyncAction
plan_artifact env a path local_path none = ocp_action_at env path local_path a.checksum a.url none
plan_artifact env a path local_path (some content) =
    if is_empty a.checksum && env.can_stat local_path
    then unchecked a path local_path content
    else ocp_action_at env path local_path a.checksum a.url (some content)

-- The loop over the artifacts.
unfoldable pub artifact_actions :
    OcpEnv → Text → Text → Map Text → List ClientArtifact → Result OcpError (List SyncAction)
artifact_actions env out dir disk [] = ok []
artifact_actions env out dir disk (a ∷ artifacts) =
    file_path env out dir a.name >>= λ (path, local_path).
    artifact_actions env out dir disk artifacts >>= λ as'.
    ok (plan_artifact env a path local_path (lookup local_path disk) ∷ as')

abbrev pub for_platforms :
    List Text → Result FetchError ManifestResult → Option (List ClientArtifact)
for_platforms platforms (err e) = none
for_platforms platforms (ok m) = some (filter_artifacts m.artifacts platforms)

-- The artifacts of a version for the platforms; none where its manifest cannot be had.
unfoldable pub version_artifacts :
    Sorter → OcpEnv → ClientsConfig → Text → Option (List ClientArtifact)
version_artifacts sorter env cfg version =
    for_platforms cfg.platforms (fetch_manifest sorter env.request version)

abbrev pub plan_manifest :
    OcpEnv
    → Text
    → Text
    → Map Text
    → Option (List ClientArtifact)
    → Result OcpError (List SyncAction)
plan_manifest env out dir disk none = ok []
plan_manifest env out dir disk (some artifacts) = artifact_actions env out dir disk artifacts

abbrev pub version_dir : OcpEnv → Text → Text → Result OcpError Text
version_dir env out version =
    map_err (λ e. invalid_version version) (safe_join_under env.cwd out version)

-- The loop over the versions.
unfoldable pub client_actions :
    Sorter
    → OcpEnv
    → ClientsConfig
    → Text
    → Map Text
    → List Text
    → Result OcpError (List SyncAction)
client_actions sorter env cfg out disk [] = ok []
client_actions sorter env cfg out disk (version ∷ versions) = version_dir env out version >>= λ dir.
    plan_manifest env out dir disk (version_artifacts sorter env cfg version) >>= λ as'.
    client_actions sorter env cfg out disk versions >>= λ more. ok (as' ++ more)

abbrev pub output_root : OcpEnv → ClientsConfig → Result OcpError Text
output_root env cfg =
    map_err (λ e. invalid_output_dir) (safe_join_under env.cwd env.data_dir cfg.output_dir)

-- The plan for the versions; without any it is empty, and the output directory is not looked at.
unfoldable pub plan_versions_of :
    Sorter → OcpEnv → Text → ClientsConfig → Map Text → List Text → Result OcpError SyncPlan
plan_versions_of sorter env name cfg disk [] =
    ok (record { provider = name; actions = []; total_size = 0; total_files = 0 })
plan_versions_of sorter env name cfg disk (v ∷ vs) = output_root env cfg >>= λ out.
    client_actions sorter env cfg out disk (v ∷ vs) >>= λ as'. ok (
      add_actions {E = OcpError}
        (record { provider = name; actions = []; total_size = 0; total_files = 0 }) (ok as'))

-- `Plan` of the provider
unfoldable pub plan_clients :
    Sorter
    → (ℕ → GraphEnv)
    → OcpEnv
    → Text
    → Option ClientsConfig
    → Map Text
    → Map GraphEntry
    → Result OcpError SyncPlan × Map GraphEntry
plan_clients sorter graph env name none disk cache = (err not_configured, cache)
plan_clients sorter graph env name (some cfg) disk cache =
    let (versions, cache') = resolve_versions sorter graph cfg cache in
    (plan_versions_of sorter env name cfg disk versions, cache')

abbrev pub validate_artifact :
    OcpEnv
    → Text
    → Text
    → Map Text
    → ClientArtifact
    → ValidationReport
    → Result PathError Text
    → Result OcpError ValidationReport
validate_artifact env version out disk a report (err e) = ok (
    count_result
      (some (invalid_file (join version a.name) [] a.checksum (codes "error: unsafe path") 0 a.url))
      report)
validate_artifact env version out disk a report (ok local_path) =
    or_err (rel out local_path) (no_relative_path a.name) >>= λ path. ok (
      count_result (ocp_validate_at env path local_path a.checksum a.url (lookup local_path disk))
        report)

unfoldable pub validate_artifacts :
    OcpEnv
    → Text
    → Text
    → Text
    → Map Text
    → List ClientArtifact
    → ValidationReport
    → Result OcpError ValidationReport
validate_artifacts env version out dir disk [] report = ok report
validate_artifacts env version out dir disk (a ∷ artifacts) report =
    validate_artifact env version out disk a report (safe_join_under env.cwd dir a.name)
    >>= λ report'. validate_artifacts env version out dir disk artifacts report'

abbrev pub validate_manifest :
    OcpEnv
    → Text
    → Text
    → Text
    → Map Text
    → ValidationReport
    → Option (List ClientArtifact)
    → Result OcpError ValidationReport
validate_manifest env version out dir disk report none = ok report
validate_manifest env version out dir disk report (some artifacts) =
    validate_artifacts env version out dir disk artifacts report

-- The loop over the versions.
unfoldable pub validate_clients_at :
    Sorter
    → OcpEnv
    → ClientsConfig
    → Text
    → Map Text
    → List Text
    → ValidationReport
    → Result OcpError ValidationReport
validate_clients_at sorter env cfg out disk [] report = ok report
validate_clients_at sorter env cfg out disk (version ∷ versions) report =
    version_dir env out version >>= λ dir.
    validate_manifest env version out dir disk report (version_artifacts sorter env cfg version)
    >>= λ report'. validate_clients_at sorter env cfg out disk versions report'

-- Validate
unfoldable pub validate_clients :
    Sorter
    → (ℕ → GraphEnv)
    → OcpEnv
    → Text
    → Option ClientsConfig
    → Map Text
    → Map GraphEntry
    → Result OcpError ValidationReport × Map GraphEntry
validate_clients sorter graph env name none disk cache = (err not_configured, cache)
validate_clients sorter graph env name (some cfg) disk cache =
    let (versions, cache') = resolve_versions sorter graph cfg cache in
    (
      output_root env cfg >>= λ out.
          validate_clients_at sorter env cfg out disk versions
            (record { provider = name; total_files = 0; valid_files = 0; invalid_files = [] }),
      cache',
    )
