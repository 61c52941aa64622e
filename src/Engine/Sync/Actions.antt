-- ===== src/Engine/Sync/Actions.antt =====
-- The parts of `SyncProvider` in internal/engine/sync.go that range over the actions of a plan.
use ocp_offline.Prelude.{
  ℕ, ◌+◌, Text, codes, text_eq, nat_eq, Bool, true, false, List, [], ◌∷◌, ◌++◌, foldl, Option, none,
  some, Result, ok, err, if◌then◌else◌, is_empty, Map, insert, lookup, delete,
}
use ocp_offline.Safety.Path.{PathError, safe_join_under, ensure_under_root}
use ocp_offline.Provider.{ActionType, download, delete_file, skip, update, SyncAction, FailedFile}
use ocp_offline.Download.Client.{DownloadResult, DownloadError}
use ocp_offline.Download.Pool.{Job, PoolResult}
use ocp_offline.Store.Models.{FileRecord, FailedFileRecord}
use ocp_offline.Store.Files.{upsert_file_record, delete_file_record}
use ocp_offline.Store.Failed.{add_failed_file}
use ocp_offline.Engine.Sync.Base.{SyncEnv, SyncState, Tally}

abbrev pub is_fetch : ActionType → Bool
is_fetch download = true
is_fetch update = true
is_fetch a = false

abbrev pub is_skip : ActionType → Bool
is_skip skip = true
is_skip a = false

abbrev pub is_delete : ActionType → Bool
is_delete delete_file = true
is_delete a = false

unfoldable pub count_actions : (ActionType → Bool) → List SyncAction → ℕ
count_actions p [] = 0
count_actions p (a ∷ as') = (if p a.action then 1 else 0) + count_actions p as'

-- resolveActionDestPath, and the same steps for a deletion
unfoldable pub resolve_path : Option Text → Text → SyncAction → Result PathError Text
resolve_path cwd root a =
    if is_empty a.local_path
    then safe_join_under cwd root a.path
    else ensure_under_root cwd root a.local_path

abbrev pub job_for : SyncAction → Text → Job
job_for a dest = record {
  url = a.url;
  dest_path = dest;
  expected_checksum = a.checksum;
  expected_size = a.size;
}

abbrev pub with_job :
    SyncAction → Result PathError Text → Result Text (List Job) → Result Text (List Job)
with_job a (err e) rest = err a.path
with_job a (ok dest) (err e) = err e
with_job a (ok dest) (ok jobs) = ok (job_for a dest ∷ jobs)

-- The loop that builds the jobs: the path of the first action whose destination is unsafe, or all jobs.
unfoldable pub download_jobs : Option Text → Text → List SyncAction → Result Text (List Job)
download_jobs cwd root [] = ok []
download_jobs cwd root (a ∷ as') =
    let rest = download_jobs cwd root as' in
    if is_fetch a.action then with_job a (resolve_path cwd root a) rest else rest

-- downloadResultMap: the last result of a destination
unfoldable pub result_map : List PoolResult → Map PoolResult
result_map rs = foldl (λ m r. insert r.job.dest_path r m) [] rs

-- The counts, the failed files and the state that the loop over the results works on.
pub record Progress : Type 0 where
  pub tally : Tally
  pub failed_files : List FailedFile
  pub state : SyncState

abbrev pub fail_action : SyncAction → Text → ℕ → Progress → Progress
fail_action a message attempts p = record p {
  tally = record (p.tally) { failed = p.tally.failed + 1 };
  failed_files =
      p.failed_files
      ++ record { path = a.path; url = a.url; error = message; attempts = attempts } ∷ [];
}

abbrev pub file_record_of : SyncEnv → Text → ℕ → SyncAction → DownloadResult → FileRecord
file_record_of env name run_id a d = record {
  id = 0;
  provider = name;
  path = a.path;
  size = d.size;
  sha256 = d.sha256;
  last_modified = env.now;
  last_verified = env.now;
  sync_run_id = run_id;
}

abbrev pub failed_record_of : SyncEnv → Text → SyncAction → Text → Text → FailedFileRecord
failed_record_of env name a dest message = record {
  id = 0;
  provider = name;
  file_path = a.path;
  url = a.url;
  dest_path = dest;
  expected_checksum = a.checksum;
  expected_size = a.size;
  error = message;
  retry_count = 1;
  first_failure = env.now;
  last_failure = env.now;
  resolved = false;
}

-- A job that succeeded.
unfoldable pub record_success :
    SyncEnv → Text → ℕ → SyncAction → DownloadResult → Progress → Progress
record_success env name run_id a d p = record p {
  tally = record (p.tally) { downloaded = p.tally.downloaded + 1; bytes = p.tally.bytes + d.size };
  state = record (p.state) {
    files =
        (upsert_file_record (env.faults.on_upsert a.path) (file_record_of env name run_id a d)
          p.state.files).1;
  };
}

-- A job that failed.
unfoldable pub record_failure : SyncEnv → Text → SyncAction → Text → Text → Progress → Progress
record_failure env name a dest message p =
    let q : Progress = fail_action a message 1 p in
    record q {
      state = record (p.state) {
        failed =
            (add_failed_file (env.faults.on_failed_update a.path)
              (env.faults.on_failed_insert a.path) (failed_record_of env name a dest message)
              p.state.failed).1;
      };
    }

abbrev pub error_of : SyncEnv → Option DownloadError → Text
error_of env none = []
error_of env (some e) = env.error_text e

-- A result of the pool, by its download; one without success has an error, and one with success a
-- download.
unfoldable pub settle_result :
    SyncEnv
    → Text
    → ℕ
    → SyncAction
    → Text
    → PoolResult
    → Option DownloadResult
    → Progress
    → Progress
settle_result env name run_id a dest r none p =
    record_failure env name a dest (error_of env r.error) p
settle_result env name run_id a dest r (some d) p =
    if r.success
    then record_success env name run_id a d p
    else record_failure env name a dest (error_of env r.error) p

-- What the result of a job does.
unfoldable pub settle_job :
    SyncEnv → Text → ℕ → SyncAction → Text → Option PoolResult → Progress → Progress
settle_job env name run_id a dest none p = fail_action a (codes "missing download result") 1 p
settle_job env name run_id a dest (some r) p = settle_result env name run_id a dest r r.download p

unfoldable pub settle_fetch :
    SyncEnv → Text → ℕ → Map PoolResult → SyncAction → Result PathError Text → Progress → Progress
settle_fetch env name run_id results a (err e) p =
    fail_action a (codes "unsafe resolved destination path") 0 p
settle_fetch env name run_id results a (ok dest) p =
    settle_job env name run_id a dest (lookup dest results) p

-- A deletion: of the file, and of its record.
unfoldable pub settle_delete :
    SyncEnv → Text → SyncAction → Result PathError Text → Progress → Progress
settle_delete env name a (err e) p = p
settle_delete env name a (ok file) p = record p {
  state = record (p.state) {
    disk = if env.can_remove file then delete file p.state.disk else p.state.disk;
    files = (delete_file_record (env.faults.on_delete a.path) name a.path p.state.files).1;
  };
}

-- The body of the loop over the actions.
unfoldable pub settle_action :
    SyncEnv → Text → Text → ℕ → Map PoolResult → SyncAction → ActionType → Progress → Progress
settle_action env name root run_id results a download p =
    settle_fetch env name run_id results a (resolve_path env.cwd root a) p
settle_action env name root run_id results a update p =
    settle_fetch env name run_id results a (resolve_path env.cwd root a) p
settle_action env name root run_id results a delete_file p =
    settle_delete env name a (resolve_path env.cwd root a) p
settle_action env name root run_id results a skip p = record p {
  tally = record (p.tally) { skipped = p.tally.skipped + 1 };
}

unfoldable pub settle_actions :
    SyncEnv → Text → Text → ℕ → Map PoolResult → List SyncAction → Progress → Progress
settle_actions env name root run_id results [] p = p
settle_actions env name root run_id results (a ∷ as') p =
    settle_actions env name root run_id results as'
      (settle_action env name root run_id results a a.action p)
