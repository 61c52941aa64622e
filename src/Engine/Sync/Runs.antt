-- ===== src/Engine/Sync/Runs.antt =====
-- The record of a sync in the store, against what the sync returned.
mod Kept
use ocp_offline.Prelude.{
  ℕ, suc, ◌≡◌, ◌∙◌, refl, sym, subst, Text, codes, text_eq, nat_eq, ◌==◌, Bool, true, false, List,
  [], ◌∷◌, Option, none, some, Result, ok, err, ltb, if◌then◌else◌, length, arith, Map, lookup,
  Bool-cases, inl, inr,
}
use ocp_offline.Safety.Path.{PathError, safe_join_under}
use ocp_offline.Provider.{
  ActionType, download, delete_file, skip, update, SyncAction, SyncPlan, SyncOptions, SyncReport,
  Provider, get_provider,
}
use ocp_offline.Download.Client.{DownloadResult}
use ocp_offline.Download.Pool.{Job, PoolResult}
use ocp_offline.Store.Models.{SyncRun}
use ocp_offline.Store.Table.{Table, Fault, no_fault, StoreError, IsKeyed}
use ocp_offline.Store.SyncRuns.{sync_run_row, create_sync_run, update_sync_run, get_sync_run}
use ocp_offline.Store.SyncRuns.Laws.{get-create, get-update}
use ocp_offline.Engine.Sync.Base.{SyncEnv, SyncState, SyncError, plan_failed}
use ocp_offline.Engine.Sync.Actions.{
  resolve_path, download_jobs, Progress, record_success, record_failure, settle_result, settle_job,
  settle_fetch, settle_delete, settle_action, settle_actions,
}
use ocp_offline.Engine.Sync.Counts.{run_jobs-Counts}
use ocp_offline.Engine.Sync.{
  SyncOutcome, start_progress, running_sync, ended_run, fail_plan, dry_sync, report_sync, run_jobs,
  execute_sync, real_sync, planned_sync, started_sync, found_sync, sync_provider,
}
use Kept.{settle_actions-runs}

-- The status that the store ends up with: a sync that stops on an unsafe path stays `running`.
abbrev pub status_of : Bool → Result SyncError SyncReport → Text
status_of dry (ok report) =
    if dry
    then codes "completed"
    else if ltb 0 (length report.failed)
    then codes "partial"
    else codes "success"
status_of dry (err (plan_failed message)) = codes "failed"
status_of dry (err e) = codes "running"

-- The store holds the run under its id, with the provider and the status of the outcome, and with the
-- counts of the report.
abbrev pub Agrees : SyncRun → Result SyncError SyncReport → Type 0
Agrees run (err e) = Unit
Agrees run (ok report) =
    (run.files_downloaded ≡ report.downloaded)
    × (run.files_deleted ≡ report.deleted)
    × (run.files_skipped ≡ report.skipped)
    × (run.files_failed ≡ length report.failed)
    × (run.bytes_transferred ≡ report.bytes_transferred)

pub record Recorded (name : Text) (id : ℕ) (dry : Bool) (r : Result SyncError SyncReport)
    (runs : Table SyncRun) : Type 0 where
  pub run : SyncRun
  pub found : get_sync_run no_fault id runs ≡ ok run
  pub provider : run.provider ≡ name
  pub status : run.status ≡ status_of dry r
  pub counts : Agrees run r

updated :
    (run old : SyncRun) (fault : Fault) (t : Table SyncRun)
    → fault ≡ no_fault
    → get_sync_run no_fault run.id t ≡ ok old
    → get_sync_run no_fault run.id (update_sync_run fault run t).1 ≡ ok run
updated run old fault t f h =
    let self : (run.id == run.id) ≡ true = ground arith in
    rw f (get-update run t run.id ∙ rw (self, h) refl)

module _ (env : SyncEnv) (name : Text) (opts : SyncOptions)
    (u : env.faults.on_update_run ≡ no_fault) where
  fail_plan-Recorded :
      (run : SyncRun) (message : Text) (st : SyncState)
      → run.provider ≡ name
      → get_sync_run no_fault run.id st.runs ≡ ok run
      → Recorded name run.id opts.dry_run
          (fail_plan env run message st).0
          (fail_plan env run message st).1.runs
  unfolding fail_plan
  fail_plan-Recorded run message st n h = record {
    run = record run { status = codes "failed"; error_message = message; end_time = env.now };
    found =
        updated
          (record run { status = codes "failed"; error_message = message; end_time = env.now }) run
          env.faults.on_update_run st.runs u h;
    provider = n;
    status = refl;
    counts = tt;
  }

  dry_sync-Recorded :
      (run : SyncRun) (plan : SyncPlan) (st : SyncState)
      → run.provider ≡ name
      → run.bytes_transferred ≡ 0
      → get_sync_run no_fault run.id st.runs ≡ ok run
      → Recorded name run.id true
          (dry_sync env name run plan st).0
          (dry_sync env name run plan st).1.runs
  unfolding dry_sync
  dry_sync-Recorded run plan st n z h = record {
    run = _;
    found = updated _ run env.faults.on_update_run st.runs u h;
    provider = n;
    status = refl;
    counts = (refl, refl, refl, refl, z);
  }

  run_jobs-runs :
      (root : Text) (run : SyncRun) (plan : SyncPlan) (jobs : List Job) (st : SyncState)
      → (run_jobs env name root opts run plan jobs st).state.runs ≡ st.runs
  unfolding run_jobs
  run_jobs-runs root run plan jobs st = elim (Bool-cases (length jobs == 0)) [
    | inl e ↦ rw e (settle_actions-runs env name root run.id _ plan.actions (start_progress st))
    | inr e ↦ rw e (settle_actions-runs env name root run.id _ plan.actions (start_progress _))
  ]

  report_sync-Recorded :
      (run : SyncRun) (plan : SyncPlan) (p : Progress)
      → run.provider ≡ name
      → length p.failed_files ≡ p.tally.failed
      → get_sync_run no_fault run.id p.state.runs ≡ ok run
      → Recorded name run.id false
          (report_sync env name run plan p).0
          (report_sync env name run plan p).1.runs
  unfolding report_sync
  report_sync-Recorded run plan p n l h = record {
    run = ended_run env plan run p.tally;
    found = updated (ended_run env plan run p.tally) run env.faults.on_update_run p.state.runs u h;
    provider = n;
    status = rw l refl;
    counts = (refl, refl, refl, sym l, refl);
  }

  execute_sync-Recorded :
      (root : Text) (run : SyncRun) (plan : SyncPlan) (jobs : Result Text (List Job))
      (st : SyncState)
      → run.provider ≡ name
      → run.status ≡ codes "running"
      → get_sync_run no_fault run.id st.runs ≡ ok run
      → Recorded name run.id false
          (execute_sync env name root opts run plan jobs st).0
          (execute_sync env name root opts run plan jobs st).1.runs
  unfolding execute_sync
  execute_sync-Recorded root run plan (err path) st n s h = record {
    run = run;
    found = h;
    provider = n;
    status = s;
    counts = tt;
  }
  execute_sync-Recorded root run plan (ok jobs) st n s h =
      let (st', k) = run_jobs-Counts env name opts plan root run jobs st in
      report_sync-Recorded run plan (run_jobs env name root opts run plan jobs st) n
        (omega (arith, k.listed))
        (subst (λ t. get_sync_run no_fault run.id t ≡ ok run)
          (sym (run_jobs-runs root run plan jobs st)) h)

  real_sync-Recorded :
      (run : SyncRun) (plan : SyncPlan) (root : Result PathError Text) (st : SyncState)
      → run.provider ≡ name
      → run.status ≡ codes "running"
      → get_sync_run no_fault run.id st.runs ≡ ok run
      → Recorded name run.id false
          (real_sync env name opts run plan root st).0
          (real_sync env name opts run plan root st).1.runs
  unfolding real_sync
  real_sync-Recorded run plan (err e) st n s h = record {
    run = run;
    found = h;
    provider = n;
    status = s;
    counts = tt;
  }
  real_sync-Recorded run plan (ok root) st n s h =
      execute_sync-Recorded root run plan (download_jobs env.cwd root plan.actions) st n s h

  pick-Recorded :
      (id : ℕ) (b : Bool) (x y : SyncOutcome)
      → Recorded name id true x.0 x.1.runs
      → Recorded name id false y.0 y.1.runs
      → Recorded name id b (if b then x else y).0 (if b then x else y).1.runs
  pick-Recorded id true x y h k = h
  pick-Recorded id false x y h k = k

  planned_sync-Recorded :
      (id : ℕ) (plan : Result Text SyncPlan) (st : SyncState)
      → get_sync_run no_fault id st.runs ≡ ok (record (running_sync name env.now) { id = id })
      → Recorded name id opts.dry_run
          (planned_sync env name opts (record (running_sync name env.now) { id = id }) plan st).0
          (planned_sync env name opts
            (record (running_sync name env.now) { id = id })
            plan
            st).1.runs
  unfolding planned_sync
  planned_sync-Recorded id (err message) st h = fail_plan-Recorded _ message st refl h
  planned_sync-Recorded id (ok plan) st h =
      pick-Recorded id opts.dry_run _ _ (dry_sync-Recorded _ plan _ refl refl h)
        (real_sync-Recorded _ plan (safe_join_under env.cwd env.data_dir name) _ refl refl h)

  started_sync-Recorded :
      (p : Provider) (id : ℕ) (created : Result StoreError ℕ) (st : SyncState)
      → created ≡ ok id
      → get_sync_run no_fault id st.runs ≡ ok (record (running_sync name env.now) { id = id })
      → Recorded name id opts.dry_run
          (started_sync env name opts p created st).0
          (started_sync env name opts p created st).1.runs
  unfolding started_sync
  started_sync-Recorded p id created st c h =
      subst
        (λ r.
          Recorded name id opts.dry_run (started_sync env name opts p r st).0
            (started_sync env name opts p r st).1.runs)
        (sym c)
        (planned_sync-Recorded id p.plan (record st { disk = env.plan_disk name st.disk }) h)

-- The run is created under the id.
abbrev Made : Text → SyncEnv → ℕ → Table SyncRun → Fault → Type 0
Made name env id t fault =
    ((create_sync_run fault (running_sync name env.now) t).0 ≡ ok id)
    × (get_sync_run no_fault id (create_sync_run fault (running_sync name env.now) t).1
        ≡ ok (record (running_sync name env.now) { id = id }))

-- Where the provider is known and the statements on sync runs succeed, a sync leaves a record of its
-- own in the store, whatever the plan, the downloads and the other statements come to: `completed`
-- for a dry run, `success` or `partial` by whether files failed, with the counts that are reported,
-- `failed` where there is no plan; and `running` where the sync stops at an unsafe path.
pub sync_provider-Recorded :
    (env : SyncEnv) (name : Text) (opts : SyncOptions) (p : Provider) (st : SyncState)
    → get_provider name env.registry ≡ some p
    → env.faults.on_create_run ≡ no_fault
    → env.faults.on_update_run ≡ no_fault
    → IsKeyed st.runs
    → Recorded name
        (suc st.runs.seq)
        opts.dry_run
        (sync_provider env name opts st).0
        (sync_provider env name opts st).1.runs
unfolding sync_provider
sync_provider-Recorded env name opts p st g c u k =
    let (fresh, created, found) =
      get-create (running_sync name env.now) st.runs (suc st.runs.seq) k in
    let self : (suc st.runs.seq == suc st.runs.seq) ≡ true = ground arith in
    let made : Made name env (suc st.runs.seq) st.runs no_fault = (created, found ∙ rw self refl) in
    let (h0, h1) = subst (λ f. Made name env (suc st.runs.seq) st.runs f) (sym c) made in
    rw g (unfold found_sync in started_sync-Recorded env name opts u p _ _ _ h0 h1)
