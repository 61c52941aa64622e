-- ===== src/Engine/Sync.antt =====
-- internal/engine/sync.go: a sync of one provider. The lock that keeps a sync and a change of the
-- providers apart and the log are not modelled.
pub mod Base
pub mod Actions
pub mod Placed
pub mod Counts
pub mod Runs
pub mod Settled
pub mod Reach
pub mod All
pub mod Scan
pub mod Status
pub mod Reconfigure
mod Examples
use ocp_offline.Prelude.{
  ℕ, zero, suc, ◌+◌, Text, codes, text_eq, nat_eq, Bool, true, false, not, ◌&&◌, ◌||◌, List, [],
  ◌∷◌, ◌++◌, Option, none, some, Result, ok, err, ◌==◌, ltb, if◌then◌else◌, is_empty, length,
}
use ocp_offline.Safety.Path.{PathError, safe_join_under}
use ocp_offline.Provider.{SyncPlan, SyncOptions, SyncReport, FailedFile, Provider, get_provider}
use ocp_offline.Download.Pool.{Job}
use ocp_offline.Store.Models.{SyncRun}
use ocp_offline.Store.SyncRuns.{create_sync_run, update_sync_run}
use ocp_offline.Store.Table.{StoreError}
use ocp_offline.Engine.Export.{emit_digits}
use ocp_offline.Engine.Progress.{
  SyncPhase, downloading, complete, failed, SyncTracker, new_sync_tracker, set_phase, set_totals,
  set_message, set_skipped_files, perform_all,
}
use ocp_offline.Engine.Sync.Base.{
  SyncError, provider_not_found, create_run_failed, invalid_root, plan_failed, unsafe_path,
  SyncFaults, SyncEnv, SyncState, Tally,
}
use ocp_offline.Engine.Sync.Actions.{
  is_fetch, is_skip, is_delete, count_actions, download_jobs, result_map, Progress, settle_actions,
}

-- %d of a number that is not negative
unfoldable pub decimal : ℕ → Text
decimal n = if n == 0 then codes "0" else emit_digits n n []

abbrev pub SyncOutcome : Type 0
SyncOutcome = Result SyncError SyncReport × SyncState

-- The sync run that is created.
abbrev pub running_sync : Text → ℕ → SyncRun
running_sync name now = record {
  id = 0;
  provider = name;
  start_time = now;
  end_time = 0;
  files_downloaded = 0;
  files_deleted = 0;
  files_skipped = 0;
  files_failed = 0;
  bytes_transferred = 0;
  status = codes "running";
  error_message = [];
}

-- A call of the tracker that was installed.
abbrev pub tracked : (SyncTracker → SyncTracker) → SyncState → SyncState
tracked f st = record st { tracker = elim st.tracker [ none ↦ none | some t ↦ some (f t) ] }

-- `_ = m.store.UpdateSyncRun(syncRun)`, which ends a run
abbrev pub end_run : SyncEnv → SyncRun → SyncState → SyncState
end_run env run st = record st { runs = (update_sync_run env.faults.on_update_run run st.runs).1 }

-- A plan that failed.
unfoldable pub fail_plan : SyncEnv → SyncRun → Text → SyncState → SyncOutcome
fail_plan env run message st =
    let st' =
      tracked (λ t. set_message (codes "Planning failed: " ++ message) (set_phase failed t)) st in
    (
      err (plan_failed message),
      end_run env
          (record run { status = codes "failed"; error_message = message; end_time = env.now }) st',
    )

-- A dry run, which only counts.
unfoldable pub dry_sync : SyncEnv → Text → SyncRun → SyncPlan → SyncState → SyncOutcome
dry_sync env name run plan st =
    let st' = tracked (λ t. set_message (codes "Dry run complete") (set_phase complete t)) st in
    let run' : SyncRun = record run {
      status = codes "completed";
      end_time = env.now;
      files_failed = 0;
      files_downloaded = run.files_downloaded + count_actions is_fetch plan.actions;
      files_deleted = run.files_deleted + count_actions is_delete plan.actions;
      files_skipped = run.files_skipped + count_actions is_skip plan.actions;
    } in
    (
      ok (record {
        provider = name;
        start_time = run.start_time;
        end_time = env.now;
        downloaded = run'.files_downloaded;
        deleted = run'.files_deleted;
        skipped = run'.files_skipped;
        failed = [];
        bytes_transferred = 0;
      }),
      end_run env run' st',
    )

abbrev pub empty_tally : Tally
empty_tally = record { downloaded = 0; failed = 0; skipped = 0; bytes = 0 }

abbrev pub start_progress : SyncState → Progress
start_progress st = record { tally = empty_tally; failed_files = []; state = st }

-- The sync run at the end of a sync.
abbrev pub ended_run : SyncEnv → SyncPlan → SyncRun → Tally → SyncRun
ended_run env plan run n = record run {
  files_downloaded = n.downloaded;
  files_deleted = count_actions is_delete plan.actions;
  files_skipped = n.skipped;
  files_failed = n.failed;
  bytes_transferred = n.bytes;
  end_time = env.now;
  status = if ltb 0 n.failed then codes "partial" else codes "success";
}

-- The tracker's last phase and message.
abbrev pub finished : Tally → SyncTracker → SyncTracker
finished n t =
    if ltb 0 n.failed
    then set_message (codes "Completed with " ++ (decimal n.failed ++ codes " failures"))
        (set_phase failed t)
    else set_message
        (codes "Sync complete: " ++ (decimal n.downloaded ++ codes " files downloaded"))
        (set_phase complete t)

-- From the end of the loop over the actions.
unfoldable pub report_sync : SyncEnv → Text → SyncRun → SyncPlan → Progress → SyncOutcome
report_sync env name run plan p = (
  ok (record {
    provider = name;
    start_time = run.start_time;
    end_time = env.now;
    downloaded = p.tally.downloaded;
    deleted = count_actions is_delete plan.actions;
    skipped = p.tally.skipped;
    failed = p.failed_files;
    bytes_transferred = p.tally.bytes;
  }),
  end_run env (ended_run env plan run p.tally) (tracked (finished p.tally) p.state),
)

-- `if opts.MaxWorkers > 0 { workers = opts.MaxWorkers }`
abbrev pub worker_count : SyncOptions → ℕ
worker_count opts = if ltb 0 opts.max_workers then opts.max_workers else 4

-- The pool runs the jobs, and the loop over the actions takes its results.
unfoldable pub run_jobs :
    SyncEnv → Text → Text → SyncOptions → SyncRun → SyncPlan → List Job → SyncState → Progress
run_jobs env name root opts run plan jobs st =
    let results = if length jobs == 0 then [] else env.run_pool (worker_count opts) jobs in
    let fetched : SyncState =
      if length jobs == 0
      then st
      else tracked (λ t. perform_all (env.pool_calls jobs) t)
          (record st { disk = env.pool_disk jobs st.disk }) in
    settle_actions env name root run.id (result_map results) plan.actions (start_progress fetched)

-- From the jobs on: an unsafe destination ends the sync.
unfoldable pub execute_sync :
    SyncEnv
    → Text
    → Text
    → SyncOptions
    → SyncRun
    → SyncPlan
    → Result Text (List Job)
    → SyncState
    → SyncOutcome
execute_sync env name root opts run plan (err path) st = (err (unsafe_path path), st)
execute_sync env name root opts run plan (ok jobs) st =
    report_sync env name run plan (run_jobs env name root opts run plan jobs st)

-- From the provider's root on.
unfoldable pub real_sync :
    SyncEnv
    → Text
    → SyncOptions
    → SyncRun
    → SyncPlan
    → Result PathError Text
    → SyncState
    → SyncOutcome
real_sync env name opts run plan (err e) st = (err invalid_root, st)
real_sync env name opts run plan (ok root) st =
    execute_sync env name root opts run plan (download_jobs env.cwd root plan.actions) st

-- The tracker's totals.
abbrev pub planned : SyncPlan → SyncTracker → SyncTracker
planned plan t =
    let skips = count_actions is_skip plan.actions in
    let t' = set_totals (length plan.actions) plan.total_size t in
    set_message
      (codes "Downloading "
        ++ (decimal (count_actions is_fetch plan.actions)
            ++ (codes " files (" ++ (decimal skips ++ codes " up-to-date)"))))
      (set_phase downloading (if ltb 0 skips then set_skipped_files skips t' else t'))

-- From the plan on.
unfoldable pub planned_sync :
    SyncEnv → Text → SyncOptions → SyncRun → Result Text SyncPlan → SyncState → SyncOutcome
planned_sync env name opts run (err message) st = fail_plan env run message st
planned_sync env name opts run (ok plan) st =
    let st' = tracked (planned plan) st in
    if opts.dry_run
    then dry_sync env name run plan st'
    else real_sync env name opts run plan (safe_join_under env.cwd env.data_dir name) st'

-- From the creation of the sync run on.
unfoldable pub started_sync :
    SyncEnv → Text → SyncOptions → Provider → Result StoreError ℕ → SyncState → SyncOutcome
started_sync env name opts p (err e) st = (err create_run_failed, st)
started_sync env name opts p (ok id) st =
    planned_sync env name opts (record (running_sync name env.now) { id = id }) p.plan
      (record st { disk = env.plan_disk name st.disk })

-- From the look-up of the provider on.
unfoldable pub found_sync : SyncEnv → Text → SyncOptions → Option Provider → SyncState → SyncOutcome
found_sync env name opts none st = (err provider_not_found, st)
found_sync env name opts (some p) st =
    let (res, runs) =
      create_sync_run env.faults.on_create_run (running_sync name env.now) st.runs in
    started_sync env name opts p res (record st { runs = runs })

-- SyncProvider
unfoldable pub sync_provider : SyncEnv → Text → SyncOptions → SyncState → SyncOutcome
sync_provider env name opts st =
    found_sync env name opts (get_provider name env.registry) (record st {
      tracker =
          some (set_message (codes "Planning sync for " ++ name) (new_sync_tracker name env.now));
    })
