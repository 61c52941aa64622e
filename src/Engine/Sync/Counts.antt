-- ===== src/Engine/Sync/Counts.antt =====
-- The counts that a sync reports, against its plan.
mod Loop
use ocp_offline.Prelude.{
  ℕ, ◌+◌, ◌≡◌, refl, sym, subst, Text, text_eq, Bool, true, false, List, [], ◌∷◌, Option, none,
  some, Result, ok, err, if◌then◌else◌, length, length-append, arith, Map, lookup,
}
use ocp_offline.Safety.Path.{PathError, safe_join_under}
use ocp_offline.Provider.{
  ActionType, download, delete_file, skip, update, SyncAction, SyncPlan, SyncOptions, SyncReport,
  Provider, get_provider,
}
use ocp_offline.Download.Client.{DownloadResult}
use ocp_offline.Download.Pool.{Job, PoolResult}
use ocp_offline.Store.Models.{SyncRun}
use ocp_offline.Store.Table.{StoreError}
use ocp_offline.Engine.Sync.Base.{SyncEnv, SyncState, SyncError}
use ocp_offline.Engine.Sync.Actions.{
  is_fetch, is_skip, is_delete, count_actions, result_map, resolve_path, download_jobs, Progress,
  record_success, record_failure, settle_result, settle_job, settle_fetch, settle_delete,
  settle_action, settle_actions, fail_action,
}
use ocp_offline.Engine.Sync.{
  SyncOutcome, start_progress, running_sync, dry_sync, report_sync, run_jobs, execute_sync,
  real_sync, planned_sync, started_sync, found_sync, sync_provider,
}
use Loop.{settle_actions-Counts}
pub use Loop.{Counts}

-- The report accounts for every action of the plan.
pub record Accounts (plan : SyncPlan) (report : SyncReport) : Type 0 where
  pub fetched : report.downloaded + length report.failed ≡ count_actions is_fetch plan.actions
  pub skipped : report.skipped ≡ count_actions is_skip plan.actions
  pub deleted : report.deleted ≡ count_actions is_delete plan.actions

-- A report, if there is one, that accounts for the plan.
abbrev IsAccounted : SyncPlan → Result SyncError SyncReport → Type 0
IsAccounted plan (err e) = Unit
IsAccounted plan (ok report) = Accounts plan report

module _ (env : SyncEnv) (name : Text) (opts : SyncOptions) (plan : SyncPlan) where
  dry_sync-IsAccounted :
      (run : SyncRun) (st : SyncState)
      → run.files_downloaded ≡ 0
      → run.files_deleted ≡ 0
      → run.files_skipped ≡ 0
      → IsAccounted plan (dry_sync env name run plan st).0
  unfolding dry_sync
  dry_sync-IsAccounted run st a b c = record {
    fetched = omega arith;
    skipped = omega arith;
    deleted = omega arith;
  }

  pub run_jobs-Counts :
      (root : Text) (run : SyncRun) (jobs : List Job) (st : SyncState)
      → (st' : SyncState) × Counts
          (count_actions is_fetch plan.actions)
          (count_actions is_skip plan.actions)
          (start_progress st')
          (run_jobs env name root opts run plan jobs st)
  unfolding run_jobs
  run_jobs-Counts root run jobs st =
      (_, settle_actions-Counts env name root run.id (result_map _) plan.actions (start_progress _))

  execute_sync-IsAccounted :
      (root : Text) (run : SyncRun) (jobs : Result Text (List Job)) (st : SyncState)
      → IsAccounted plan (execute_sync env name root opts run plan jobs st).0
  unfolding execute_sync report_sync
  execute_sync-IsAccounted root run (err path) st = tt
  execute_sync-IsAccounted root run (ok jobs) st =
      let (st', k) = run_jobs-Counts root run jobs st in
      record {
        fetched = omega (arith, k.each, k.listed);
        skipped = omega (arith, k.skips);
        deleted = refl;
      }

  real_sync-IsAccounted :
      (run : SyncRun) (root : Result PathError Text) (st : SyncState)
      → IsAccounted plan (real_sync env name opts run plan root st).0
  unfolding real_sync
  real_sync-IsAccounted run (err e) st = tt
  real_sync-IsAccounted run (ok root) st =
      execute_sync-IsAccounted root run (download_jobs env.cwd root plan.actions) st

  pick-IsAccounted :
      (b : Bool) (u v : SyncOutcome)
      → IsAccounted plan u.0
      → IsAccounted plan v.0
      → IsAccounted plan (if b then u else v).0
  pick-IsAccounted true u v h k = h
  pick-IsAccounted false u v h k = k

  planned_sync-IsAccounted :
      (id : ℕ) (st : SyncState)
      → IsAccounted plan
          (planned_sync env name opts
            (record (running_sync name env.now) { id = id })
            (ok plan)
            st).0
  unfolding planned_sync
  planned_sync-IsAccounted id st =
      pick-IsAccounted opts.dry_run _ _ (dry_sync-IsAccounted _ _ refl refl refl)
        (real_sync-IsAccounted _ (safe_join_under env.cwd env.data_dir name) _)

  started_sync-IsAccounted :
      (p : Provider) (created : Result StoreError ℕ) (st : SyncState)
      → p.plan ≡ ok plan
      → IsAccounted plan (started_sync env name opts p created st).0
  unfolding started_sync
  started_sync-IsAccounted p (err e) st h = tt
  started_sync-IsAccounted p (ok id) st h =
      subst
        (λ r.
          IsAccounted plan
            (planned_sync env name opts (record (running_sync name env.now) { id = id }) r
              planned_st).0)
        (sym h) (planned_sync-IsAccounted id planned_st)
    where
      planned_st : SyncState
      planned_st = record st { disk = env.plan_disk name st.disk }

  ok-Accounts :
      (r : Result SyncError SyncReport) (report : SyncReport)
      → r ≡ ok report
      → IsAccounted plan r
      → Accounts plan report
  ok-Accounts (err e) report h a = absurd (cc h)
  ok-Accounts (ok report') report h a =
      let same : report' ≡ report = cc in subst (λ x. Accounts plan x) same a

  -- A sync that returns a report, a dry run too, accounts for its plan: downloaded and failed files
  -- are together the downloads and updates of the plan, the skipped and the deleted files those that
  -- it names.
  pub sync_provider-Accounts :
      (p : Provider) (st : SyncState) (report : SyncReport)
      → get_provider name env.registry ≡ some p
      → p.plan ≡ ok plan
      → (sync_provider env name opts st).0 ≡ ok report
      → Accounts plan report
  unfolding sync_provider
  sync_provider-Accounts p st report g h r =
      ok-Accounts _ report r (rw g (unfold found_sync in started_sync-IsAccounted p _ _ h))
