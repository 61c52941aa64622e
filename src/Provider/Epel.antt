-- ===== src/Provider/Epel.antt =====
-- internal/provider/epel/epel.go: the plan and the validation of RPM repositories. A file on disk is
-- there for `os.Stat` whether or not it can be read. A report has no texts of errors.
pub mod Metadata
pub mod Validation
pub mod Agreement
pub mod Exported
pub mod Cleanup
use ocp_offline.Prelude.{
  ℕ, ◌+◌, Text, codes, text_eq, Bool, true, false, not, ◌||◌, List, [], ◌∷◌, ◌++◌, Option, none,
  some, Result, ok, err, ◌>>=◌, ◌==◌, if◌then◌else◌, is_empty, length, Map, lookup,
}
use ocp_offline.Safety.Path.{PathError, clean_relative_path, safe_join_under, rel}
use ocp_offline.Provider.{
  ActionType, download, delete_file, skip, update, SyncAction, SyncPlan, ValidationResult,
  ValidationReport,
}
use Metadata.{
  PackageInfo, EpelEnv, EpelError, not_configured, invalid_output_dir, bad_package, cancelled,
  url_of, Loaded, load_packages,
}

pub record EpelRepo : Type 0 where
  pub name : Text
  pub base_url : Text
  pub output_dir : Text

pub record EpelConfig : Type 0 where
  pub repos : List EpelRepo
  pub cleanup_removed_packages : Bool

abbrev pub package_action :
    EpelRepo → PackageInfo → Text → Text → ActionType → ℕ → Text → SyncAction
package_action repo pkg loc path kind size reason = record {
  path = loc;
  local_path = path;
  action = kind;
  size = size;
  checksum = pkg.checksum;
  reason = reason;
  url = url_of repo.base_url loc;
}

-- The action for a package whose file has this content, if there is one.
unfoldable pub action_at :
    EpelEnv → EpelRepo → Bool → PackageInfo → Text → Text → Option Text → SyncAction
action_at env repo fast pkg loc path none =
    package_action repo pkg loc path download pkg.size (codes "new file")
action_at env repo fast pkg loc path (some content) =
    let found = package_action repo pkg loc path in
    if fast
    then found skip (length content) (codes "exists (fast check)")
    else if not (env.can_read path)
    then found update (length content) (codes "checksum verification failed")
    else if env.hash content == pkg.checksum
    then found skip (length content) (codes "checksum matches")
    else found update (length content) (codes "checksum mismatch")

-- The location of a package, clean, and its path below the output directory.
unfoldable pub package_path : EpelEnv → Text → Text → Result PathError (Text × Text)
package_path env out location = clean_relative_path location >>= λ loc.
    safe_join_under env.cwd out loc >>= λ path. ok (loc, path)

-- buildPackageAction
unfoldable pub build_action :
    EpelEnv → EpelRepo → Text → Map Text → Bool → PackageInfo → Result PathError SyncAction
build_action env repo out disk fast pkg = package_path env out pkg.location >>= λ (loc, path).
    ok (action_at env repo fast pkg loc path (lookup path disk))

abbrev pub with_action :
    PackageInfo
    → Result PathError SyncAction
    → Result EpelError (List SyncAction)
    → Result EpelError (List SyncAction)
with_action pkg (err e) rest = err (bad_package pkg.location)
with_action pkg (ok a) (err e) = err e
with_action pkg (ok a) (ok as') = ok (a ∷ as')

-- The loop over the packages: the first one with an unsafe location ends it.
unfoldable pub package_actions :
    EpelEnv
    → EpelRepo
    → Text
    → Map Text
    → Bool
    → List PackageInfo
    → Result EpelError (List SyncAction)
package_actions env repo out disk fast [] = ok []
package_actions env repo out disk fast (pkg ∷ pkgs) =
    with_action pkg (build_action env repo out disk fast pkg)
      (package_actions env repo out disk fast pkgs)

abbrev pub is_location : Text → Result PathError Text → Bool → Bool
is_location path (err e) rest = rest
is_location path (ok loc) rest = (loc == path) || rest

-- The set of remote locations: whether it has a path.
unfoldable pub is_remote : Text → List PackageInfo → Bool
is_remote path [] = false
is_remote path (pkg ∷ pkgs) =
    let rest = is_remote path pkgs in is_location path (clean_relative_path pkg.location) rest

abbrev pub delete_action : Text → ℕ → SyncAction
delete_action path size = record {
  path = path;
  local_path = [];
  action = delete_file;
  size = size;
  checksum = [];
  reason = codes "removed from manifest";
  url = [];
}

-- The callback of the walk, for a file with this relative path, if it has one.
abbrev pub with_deletion : List PackageInfo → ℕ → Option Text → List SyncAction → List SyncAction
with_deletion pkgs size none rest = rest
with_deletion pkgs size (some path) rest =
    if is_remote path pkgs then rest else delete_action path size ∷ rest

unfoldable pub deletions : Text → List PackageInfo → List (Text × ℕ) → List SyncAction
deletions out pkgs [] = []
deletions out pkgs ((path, size) ∷ files) =
    with_deletion pkgs size (rel out path) (deletions out pkgs files)

-- findDeletedPackages, which never fails, since its callback drops every error
unfoldable pub find_deleted : EpelEnv → Text → Map Text → List PackageInfo → List SyncAction
find_deleted env out disk pkgs = deletions out pkgs (env.walk out disk)

-- From the packages on.
unfoldable pub repo_actions :
    EpelEnv → Bool → EpelRepo → Text → Map Text → Loaded → Result EpelError (List SyncAction)
repo_actions env cleanup repo out disk (err e) = err e
repo_actions env cleanup repo out disk (ok (pkgs, modified)) =
    package_actions env repo out disk (not modified) pkgs >>= λ as'.
    ok (as' ++ (if cleanup then find_deleted env out disk pkgs else []))

unfoldable pub plan_repo_at :
    EpelEnv
    → Bool
    → EpelRepo
    → Map Text
    → Result PathError Text
    → Result EpelError (List SyncAction) × Map Text
plan_repo_at env cleanup repo disk (err e) = (err invalid_output_dir, disk)
plan_repo_at env cleanup repo disk (ok out) =
    let (loaded, disk') = load_packages env true repo.base_url out disk in
    (repo_actions env cleanup repo out disk' loaded, disk')

-- planRepo
unfoldable pub plan_repo :
    EpelEnv → Bool → EpelRepo → Map Text → Result EpelError (List SyncAction) × Map Text
plan_repo env cleanup repo disk =
    plan_repo_at env cleanup repo disk (safe_join_under env.cwd env.data_dir repo.output_dir)

abbrev pub fetch_size : SyncAction → ℕ
fetch_size a = elim a.action [ download ↦ a.size | update ↦ a.size | delete_file ↦ 0 | skip ↦ 0 ]

abbrev pub total_fetch : List SyncAction → ℕ
total_fetch [] = 0
total_fetch (a ∷ as') = fetch_size a + total_fetch as'

-- The actions of a repository join the plan; one that failed adds none.
abbrev pub add_actions : {E : Type 0} → SyncPlan → Result E (List SyncAction) → SyncPlan
add_actions plan (err e) = plan
add_actions plan (ok as') = record plan {
  actions = plan.actions ++ as';
  total_files = plan.total_files + length as';
  total_size = plan.total_size + total_fetch as';
}

unfoldable pub plan_repos :
    EpelEnv → Bool → List EpelRepo → SyncPlan → Map Text → SyncPlan × Map Text
plan_repos env cleanup [] plan disk = (plan, disk)
plan_repos env cleanup (repo ∷ repos) plan disk =
    let (actions, disk') = plan_repo env cleanup repo disk in
    plan_repos env cleanup repos (add_actions plan actions) disk'

-- `Plan` of the provider
unfoldable pub plan_epel :
    EpelEnv → Text → Option EpelConfig → Map Text → Result EpelError SyncPlan × Map Text
plan_epel env name none disk = (err not_configured, disk)
plan_epel env name (some cfg) disk =
    let start : SyncPlan = record {
      provider = name;
      actions = [];
      total_size = 0;
      total_files = 0;
    } in
    let (plan, disk') = plan_repos env cfg.cleanup_removed_packages cfg.repos start disk in
    (ok plan, disk')
