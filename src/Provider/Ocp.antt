-- ===== src/Provider/Ocp.antt =====
-- internal/provider/ocp: the plan and the validation of the providers of OpenShift binaries and of
-- RHCOS images, whose code is the same. The server, the file system and the hash are a parameter. A
-- map is ranged over in the order of its list; the texts of errors are not modelled.
mod Examples
pub mod Judged
pub mod Configured
pub mod Rhcos
pub mod Placed
pub mod Synced
pub mod Agreement
pub mod Checksums
pub mod Clients
use ocp_offline.Prelude.{
  ℕ, ◌+◌, Text, codes, text_eq, Bool, true, false, not, List, [], ◌∷◌, ◌++◌, Option, none, some,
  Result, ok, err, ◌>>=◌, or_err, map_err, ◌==◌, if◌then◌else◌, length, Map, lookup,
}
use ocp_offline.Safety.Path.{PathError, safe_join_under, rel, join}
use ocp_offline.Provider.{
  ActionType, download, skip, update, SyncAction, SyncPlan, ValidationResult, ValidationReport,
}
use ocp_offline.Provider.Epel.Metadata.{HttpReply, fetched, trim_right}
use ocp_offline.Provider.Epel.{add_actions}
use ocp_offline.Provider.Epel.Validation.{add_result}
use Checksums.{parse_checksum_file, filter_files}

pub record OcpEnv : Type 0 where
  pub cwd : Option Text
  pub data_dir : Text
  pub request : Text → HttpReply
  pub can_stat : Text → Bool
  pub can_read : Text → Bool
  pub hash : Text → Text

pub record OcpConfig : Type 0 where
  pub base_url : Text
  pub versions : List Text
  pub ignored_patterns : List Text
  pub output_dir : Text

pub data OcpError : Type 0 where
  not_configured invalid_output_dir fetch_failed : OcpError
  invalid_version unsafe_name no_relative_path : Text → OcpError

abbrev pub version_url : Text → Text → Text → Text
version_url base version file = trim_right base ++ 47 ∷ (version ++ 47 ∷ file)

abbrev pub file_action : Text → Text → Text → Text → ActionType → ℕ → Text → SyncAction
file_action path local_path checksum url kind size reason = record {
  path = path;
  local_path = local_path;
  action = kind;
  size = size;
  checksum = checksum;
  reason = reason;
  url = url;
}

-- The action for a file with this content, if there is one.
unfoldable pub ocp_action_at : OcpEnv → Text → Text → Text → Text → Option Text → SyncAction
ocp_action_at env path local_path checksum url none =
    file_action path local_path checksum url download 0
      (if env.can_stat local_path then codes "new file" else codes "error checking file")
ocp_action_at env path local_path checksum url (some content) =
    let found = file_action path local_path checksum url in
    if not (env.can_stat local_path)
    then found download 0 (codes "error checking file")
    else if not (env.can_read local_path)
    then found update (length content) (codes "checksum verification failed")
    else if env.hash content == checksum
    then found skip (length content) (codes "checksum matches")
    else found update (length content) (codes "checksum mismatch")

-- The path of a remote file below the version's directory, and relative to the output root.
unfoldable pub file_path : OcpEnv → Text → Text → Text → Result OcpError (Text × Text)
file_path env out dir file =
    map_err (λ e. unsafe_name file) (safe_join_under env.cwd dir file) >>= λ local_path.
    or_err (rel out local_path) (no_relative_path file) >>= λ path. ok (path, local_path)

-- The loop of buildSyncPlan.
unfoldable pub file_actions :
    OcpEnv → Text → Text → Text → Text → Map Text → Map Text → Result OcpError (List SyncAction)
file_actions env base version out dir disk [] = ok []
file_actions env base version out dir disk ((file, checksum) ∷ files) =
    file_path env out dir file >>= λ (path, local_path).
    file_actions env base version out dir disk files >>= λ as'. ok (
      ocp_action_at env path local_path checksum (version_url base version file)
        (lookup local_path disk)
      ∷ as')

-- The output root and the directory of a version.
unfoldable pub version_dirs : OcpEnv → Text → Text → Result OcpError (Text × Text)
version_dirs env output_dir version =
    map_err (λ e. invalid_output_dir) (safe_join_under env.cwd env.data_dir output_dir) >>= λ out.
    map_err (λ e. invalid_version version) (safe_join_under env.cwd out version) >>= λ dir.
    ok (out, dir)

-- buildSyncPlan
unfoldable pub build_sync_plan :
    OcpEnv → Text → Text → Text → Map Text → Map Text → Result OcpError (List SyncAction)
build_sync_plan env base version output_dir files disk =
    version_dirs env output_dir version >>= λ (out, dir).
    file_actions env base version out dir disk files

-- The files that a version's sha256sum.txt lists, without those to ignore.
unfoldable pub remote_files : OcpEnv → OcpConfig → Text → Result OcpError (Map Text)
remote_files env cfg version =
    or_err (fetched (env.request (version_url cfg.base_url version (codes "sha256sum.txt"))))
      fetch_failed
    >>= λ content. ok (filter_files (parse_checksum_file content) cfg.ignored_patterns)

-- The loop over the versions: one that failed adds no action.
unfoldable pub plan_versions : OcpEnv → OcpConfig → Map Text → List Text → SyncPlan → SyncPlan
plan_versions env cfg disk [] plan = plan
plan_versions env cfg disk (version ∷ versions) plan = plan_versions env cfg disk versions (
    add_actions plan (
      remote_files env cfg version >>= λ files.
      build_sync_plan env cfg.base_url version cfg.output_dir files disk))

-- `Plan` of the provider
unfoldable pub plan_ocp : OcpEnv → Text → Option OcpConfig → Map Text → Result OcpError SyncPlan
plan_ocp env name none disk = err not_configured
plan_ocp env name (some cfg) disk = ok (
    plan_versions env cfg disk cfg.versions
      (record { provider = name; actions = []; total_size = 0; total_files = 0 }))

abbrev pub invalid_file : Text → Text → Text → Text → ℕ → Text → ValidationResult
invalid_file path local_path expected actual size url = record {
  path = path;
  local_path = local_path;
  expected = expected;
  actual = actual;
  valid = false;
  size = size;
  url = url;
}

-- A file that is missing, cannot be read or has another checksum; `none` for one that is valid.
unfoldable pub ocp_validate_at :
    OcpEnv → Text → Text → Text → Text → Option Text → Option ValidationResult
ocp_validate_at env path local_path checksum url none = some (
    invalid_file path local_path checksum
      (if env.can_stat local_path then codes "missing" else codes "error") 0 url)
ocp_validate_at env path local_path checksum url (some content) =
    if not (env.can_stat local_path)
    then some (invalid_file path local_path checksum (codes "error") 0 url)
    else if not (env.can_read local_path)
    then some (invalid_file path local_path checksum (codes "error") (length content) url)
    else if env.hash content == checksum
    then none
    else some (invalid_file path local_path checksum (env.hash content) (length content) url)

abbrev pub count_result : Option ValidationResult → ValidationReport → ValidationReport
count_result v report = add_result v (record report { total_files = report.total_files + 1 })

abbrev pub validate_joined :
    OcpEnv
    → OcpConfig
    → Text
    → Text
    → Map Text
    → Text
    → Text
    → ValidationReport
    → Result PathError Text
    → Result OcpError ValidationReport
validate_joined env cfg version out disk file checksum report (err e) = ok (
    count_result
      (some (invalid_file (join version file) [] checksum (codes "error: unsafe path") 0 []))
      report)
validate_joined env cfg version out disk file checksum report (ok local_path) =
    or_err (rel out local_path) (no_relative_path file) >>= λ path. ok (
      count_result
        (ocp_validate_at env path local_path checksum (version_url cfg.base_url version file)
          (lookup local_path disk))
        report)

-- The loop over the files of a version.
unfoldable pub validate_files :
    OcpEnv
    → OcpConfig
    → Text
    → Text
    → Text
    → Map Text
    → Map Text
    → ValidationReport
    → Result OcpError ValidationReport
validate_files env cfg version out dir disk [] report = ok report
validate_files env cfg version out dir disk ((file, checksum) ∷ files) report =
    validate_joined env cfg version out disk file checksum report (safe_join_under env.cwd dir file)
    >>= λ report'. validate_files env cfg version out dir disk files report'

-- A version: one whose checksums cannot be had is passed over.
unfoldable pub validate_version :
    OcpEnv
    → OcpConfig
    → Text
    → Map Text
    → Text
    → ValidationReport
    → Result OcpError (Map Text)
    → Result OcpError ValidationReport
validate_version env cfg out disk version report (err e) = ok report
validate_version env cfg out disk version report (ok files) =
    map_err (λ e. invalid_version version) (safe_join_under env.cwd out version) >>= λ dir.
    validate_files env cfg version out dir disk files report

unfoldable pub validate_versions :
    OcpEnv
    → OcpConfig
    → Text
    → Map Text
    → List Text
    → ValidationReport
    → Result OcpError ValidationReport
validate_versions env cfg out disk [] report = ok report
validate_versions env cfg out disk (version ∷ versions) report =
    validate_version env cfg out disk version report (remote_files env cfg version) >>= λ report'.
    validate_versions env cfg out disk versions report'

-- Validate
unfoldable pub validate_ocp :
    OcpEnv → Text → Option OcpConfig → Map Text → Result OcpError ValidationReport
validate_ocp env name none disk = err not_configured
validate_ocp env name (some cfg) disk =
    map_err (λ e. invalid_output_dir) (safe_join_under env.cwd env.data_dir cfg.output_dir)
    >>= λ out.
        validate_versions env cfg out disk cfg.versions
          (record { provider = name; total_files = 0; valid_files = 0; invalid_files = [] })
