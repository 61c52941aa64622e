-- ===== src/Provider/Epel/Validation.antt =====
-- internal/provider/epel/epel.go: the validation of what is on disk against the metadata.
use ocp_offline.Prelude.{
  ℕ, ◌+◌, Text, codes, text_eq, false, not, List, [], ◌∷◌, ◌++◌, Option, none, some, Result, ok,
  err, ◌==◌, if◌then◌else◌, length, Map, lookup,
}
use ocp_offline.Safety.Path.{PathError, clean_relative_path, safe_join_under}
use ocp_offline.Provider.{ValidationResult, ValidationReport}
use ocp_offline.Provider.Epel.Metadata.{
  PackageInfo, EpelEnv, EpelError, not_configured, invalid_output_dir, cancelled, url_of, Loaded,
  load_packages,
}
use ocp_offline.Provider.Epel.{EpelRepo, EpelConfig}

abbrev pub invalid_result : PackageInfo → Text → Text → Text → ℕ → Text → ValidationResult
invalid_result pkg path local_path actual size url = record {
  path = path;
  local_path = local_path;
  expected = pkg.checksum;
  actual = actual;
  valid = false;
  size = size;
  url = url;
}

-- A file that is missing, cannot be read or has another checksum; `none` for one that is valid.
unfoldable pub validate_file :
    EpelEnv → EpelRepo → PackageInfo → Text → Text → Option Text → Option ValidationResult
validate_file env repo pkg loc path none =
    some (invalid_result pkg loc path (codes "missing") 0 (url_of repo.base_url loc))
validate_file env repo pkg loc path (some content) =
    let invalid = λ (actual : Text).
      some (invalid_result pkg loc path actual (length content) (url_of repo.base_url loc)) in
    if not (env.can_read path)
    then invalid (codes "error")
    else if env.hash content == pkg.checksum
    then none
    else invalid (env.hash content)

abbrev pub validate_under :
    EpelEnv
    → EpelRepo
    → Map Text
    → PackageInfo
    → Text
    → Result PathError Text
    → Option ValidationResult
validate_under env repo disk pkg loc (err e) =
    some (invalid_result pkg loc [] (codes "error: unsafe path") 0 [])
validate_under env repo disk pkg loc (ok path) =
    validate_file env repo pkg loc path (lookup path disk)

abbrev pub validate_at :
    EpelEnv
    → EpelRepo
    → Text
    → Map Text
    → PackageInfo
    → Result PathError Text
    → Option ValidationResult
validate_at env repo out disk pkg (err e) =
    some (invalid_result pkg pkg.location [] (codes "error: unsafe path") 0 [])
validate_at env repo out disk pkg (ok loc) =
    validate_under env repo disk pkg loc (safe_join_under env.cwd out loc)

-- The body of the loop over the packages.
unfoldable pub validate_package :
    EpelEnv → EpelRepo → Text → Map Text → PackageInfo → Option ValidationResult
validate_package env repo out disk pkg =
    validate_at env repo out disk pkg (clean_relative_path pkg.location)

abbrev pub add_result : Option ValidationResult → ValidationReport → ValidationReport
add_result none report = record report { valid_files = report.valid_files + 1 }
add_result (some r) report = record report { invalid_files = report.invalid_files ++ r ∷ [] }

unfoldable pub validate_packages :
    EpelEnv
    → EpelRepo
    → Text
    → Map Text
    → List PackageInfo
    → ValidationReport
    → Result EpelError ValidationReport
validate_packages env repo out disk [] report = ok report
validate_packages env repo out disk (pkg ∷ pkgs) report =
    let rest =
      validate_packages env repo out disk pkgs
        (add_result (validate_package env repo out disk pkg) report) in
    if env.is_done pkg.location then err cancelled else rest

-- From the packages on.
unfoldable pub validate_loaded :
    EpelEnv
    → EpelRepo
    → Text
    → ValidationReport
    → Loaded × Map Text
    → Result EpelError ValidationReport × Map Text
validate_loaded env repo out report (err e, disk) = (err e, disk)
validate_loaded env repo out report (ok (pkgs, modified), disk) = (
  validate_packages env repo out disk pkgs
      (record report { total_files = report.total_files + length pkgs }),
  disk,
)

unfoldable pub validate_repo_at :
    EpelEnv
    → EpelRepo
    → ValidationReport
    → Map Text
    → Result PathError Text
    → Result EpelError ValidationReport × Map Text
validate_repo_at env repo report disk (err e) = (err invalid_output_dir, disk)
validate_repo_at env repo report disk (ok out) =
    validate_loaded env repo out report (load_packages env false repo.base_url out disk)

-- The loop over the repositories: the first one that fails ends it.
unfoldable pub validate_repos :
    EpelEnv
    → List EpelRepo
    → Result EpelError ValidationReport × Map Text
    → Result EpelError ValidationReport × Map Text
validate_repos env repos (err e, disk) = (err e, disk)
validate_repos env [] (ok report, disk) = (ok report, disk)
validate_repos env (repo ∷ repos) (ok report, disk) =
    validate_repos env repos
      (validate_repo_at env repo report disk (safe_join_under env.cwd env.data_dir repo.output_dir))

-- Validate
unfoldable pub validate_epel :
    EpelEnv → Text → Option EpelConfig → Map Text → Result EpelError ValidationReport × Map Text
validate_epel env name none disk = (err not_configured, disk)
validate_epel env name (some cfg) disk =
    let start : ValidationReport = record {
      provider = name;
      total_files = 0;
      valid_files = 0;
      invalid_files = [];
    } in
    validate_repos env cfg.repos (ok start, disk)
