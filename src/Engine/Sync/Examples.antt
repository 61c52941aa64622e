-- ===== src/Engine/Sync/Examples.antt =====
-- The theorems about a sync and its progress at concrete inputs.
use ocp_offline.Prelude.{
  ◌⊎◌, ◌≡◌, refl, ◌==◌, Text, codes, text_eq, text_beq, nat_eq, true, false, List, [], ◌∷◌, none,
  some, Result, ok, err, if◌then◌else◌, insert, lookup, lookup-insert, Bool-cases, inl, inr,
  has_prefix, map,
}
use ocp_offline.Prelude.{All, Map}
use ocp_offline.Config.{RawConfig, boolean, provider_enabled}
use ocp_offline.Provider.{provider_names}
use ocp_offline.Engine.Sync.All.{sync_all, gather_all, gather_one}
use ocp_offline.Engine.Sync.All.Coverage.{Covers, sync_all-Covers}
use ocp_offline.Safety.Path.{
  safe_join_under, ensure_under_root, clean_relative_path, is_parent, abs, is_abs, join, rel,
  rel_elements, clean,
}
use ocp_offline.Safety.Path.Resolve.{parse, render}
use ocp_offline.Safety.Path.Split.{split, join_with}
use ocp_offline.Provider.{
  ActionType, download, delete_file, skip, update, SyncAction, SyncPlan, SyncOptions, SyncReport,
  Provider, get_provider,
}
use ocp_offline.Download.Client.{DownloadResult, DownloadError, http_error}
use ocp_offline.Download.Pool.{Job, job_result}
use ocp_offline.Store.Table.{empty, insert_row, no_fault}
use ocp_offline.Engine.Progress.{
  TrackerCall, completed_call, failed_call, update_call, new_sync_tracker, perform_all,
}
use ocp_offline.Engine.Progress.Laws.{Follows, log_calls, run-Follows}
use ocp_offline.Engine.Sync.Base.{Disk, SyncFaults, SyncEnv, SyncState}
use ocp_offline.Engine.Sync.{
  sync_provider, found_sync, started_sync, planned_sync, real_sync, execute_sync, report_sync,
  run_jobs,
}
use ocp_offline.Engine.Sync.Actions.{
  settle_actions, settle_action, settle_delete, settle_fetch, settle_job, settle_result,
  record_success, record_failure, result_map, download_jobs, resolve_path, count_actions,
}
use ocp_offline.Store.SyncRuns.{create_sync_run}
use ocp_offline.Engine.Sync.Counts.{Accounts, sync_provider-Accounts}
use ocp_offline.Engine.Sync.Runs.{Recorded, sync_provider-Recorded}
use ocp_offline.Engine.Sync.Settled.{is_destination}
use ocp_offline.Engine.Sync.Reach.{SparesOthers, sync_provider-SparesOthers}

abbrev calls : List TrackerCall
calls =
    update_call 0 (codes "a") 3 9
    ∷ completed_call (codes "a") 9
    ∷ failed_call (codes "b") (codes "HTTP 404")
    ∷ []

run-Follows_example :
    Follows (log_calls calls []) (perform_all calls (new_sync_tracker (codes "epel") 0))
run-Follows_example = run-Follows (codes "epel") 0 calls

abbrev action : ActionType → Text → SyncAction
action kind path = record {
  path = path;
  local_path = [];
  action = kind;
  size = 2;
  checksum = [];
  reason = [];
  url = codes "https://mirror";
}

-- One file to download, one that cannot be had, one to delete, and one that is there.
abbrev a_plan : SyncPlan
a_plan = record {
  provider = codes "p";
  actions =
      action download (codes "a")
      ∷ action update (codes "b")
      ∷ action delete_file (codes "c")
      ∷ action skip (codes "e")
      ∷ [];
  total_size = 4;
  total_files = 4;
}

abbrev a_provider : Provider
a_provider = record {
  name = codes "p";
  kind = codes "epel";
  takes_name = false;
  plan = ok a_plan;
  validation = err [];
}

abbrev no_faults : SyncFaults
no_faults = record {
  on_create_run = no_fault;
  on_update_run = no_fault;
  on_upsert = λ p. no_fault;
  on_delete = λ p. no_fault;
  on_failed_update = λ p. no_fault;
  on_failed_insert = λ p. no_fault;
}

abbrev outcome_at : Job → Result DownloadError DownloadResult
outcome_at j =
    if j.dest_path == codes "/d/p/a"
    then ok (record {
      path = j.dest_path;
      size = 2;
      sha256 = codes "ab";
      resumed = false;
      attempts = 1;
    })
    else err (http_error 404)

-- A pool that writes every destination.
abbrev write_all : List Job → Disk → Disk
write_all [] d = d
write_all (j ∷ js) d = insert j.dest_path (codes "ab") (write_all js d)

abbrev a_env : SyncEnv
a_env = record {
  registry = (codes "p", a_provider) ∷ [];
  data_dir = codes "/d";
  cwd = none;
  now = 7;
  faults = no_faults;
  run_pool = λ workers jobs. map (λ j. job_result j 0 (outcome_at j)) jobs;
  pool_calls = λ jobs. [];
  plan_disk = λ name disk. disk;
  pool_disk = write_all;
  can_remove = λ p. true;
  error_text = λ e. codes "HTTP 404";
}

abbrev before : SyncState
before = record {
  runs = empty;
  files = empty;
  failed = empty;
  disk = (codes "/d/p/c", codes "cc") ∷ (codes "/d/x", codes "xx") ∷ [];
  tracker = none;
}

abbrev options : SyncOptions
options = record { dry_run = false; force = false; max_workers = 2; retry_count = 3 }

found_p : get_provider (codes "p") a_env.registry ≡ some a_provider
unfolding get_provider lookup text_beq
found_p = refl

sync_provider-Recorded_example :
    Recorded
      (codes "p")
      1
      false
      (sync_provider a_env (codes "p") options before).0
      (sync_provider a_env (codes "p") options before).1.runs
sync_provider-Recorded_example =
    sync_provider-Recorded a_env (codes "p") options a_provider before found_p refl refl
      (record { given = tt; unique = tt })

abbrev a_report : SyncReport
a_report = record {
  provider = codes "p";
  start_time = 7;
  end_time = 7;
  downloaded = 1;
  deleted = 1;
  skipped = 1;
  failed =
      record {
        path = codes "b";
        url = codes "https://mirror";
        error = codes "HTTP 404";
        attempts = 1;
      }
      ∷ [];
  bytes_transferred = 2;
}

synced : (sync_provider a_env (codes "p") options before).0 ≡ ok a_report
unfolding sync_provider found_sync started_sync planned_sync real_sync execute_sync report_sync
    run_jobs settle_actions settle_action settle_delete settle_fetch settle_job settle_result
    record_success record_failure result_map download_jobs resolve_path count_actions get_provider
    create_sync_run insert_row job_result insert lookup safe_join_under ensure_under_root
    clean_relative_path is_parent abs is_abs join rel rel_elements clean parse render text_beq split
    has_prefix join_with
synced = refl

sync_provider-Accounts_example : Accounts a_plan a_report
sync_provider-Accounts_example =
    sync_provider-Accounts a_env (codes "p") options a_plan a_provider before a_report found_p refl
      synced

write_all-spares :
    (jobs : List Job) (d : Disk) (q : Text)
    → is_destination q jobs ≡ false
    → lookup q (write_all jobs d) ≡ lookup q d
unfolding is_destination
write_all-spares [] d q h = refl
write_all-spares (j ∷ js) d q h = elim (Bool-cases (j.dest_path == q)) [
  | inl e ↦ absurd (cc (rw e at h))
  | inr e ↦
      rw (lookup-insert j.dest_path q (codes "ab") (write_all js d), e)
        (write_all-spares js d q (rw e at h))
]

sync_provider-SparesOthers_example :
    (lookup (codes "/d/x") (sync_provider a_env (codes "p") options before).1.disk
      ≡ lookup (codes "/d/x") before.disk)
    ⊎ SparesOthers a_env
        (codes "p")
        (codes "/d/x")
        (a_env.plan_disk (codes "p") before.disk)
        (sync_provider a_env (codes "p") options before).1.disk
sync_provider-SparesOthers_example =
    sync_provider-SparesOthers a_env tt write_all-spares (codes "p") options (codes "/d/x") before

-- The provider is enabled.
abbrev enabled_p : Map RawConfig
enabled_p = (codes "p", (codes "enabled", boolean true) ∷ []) ∷ []

all_synced : (sync_all a_env enabled_p options (λ name. false) before).is_cancelled ≡ false
unfolding sync_all gather_all gather_one provider_names provider_enabled sync_provider found_sync
    started_sync planned_sync real_sync execute_sync report_sync run_jobs settle_actions
    settle_action settle_delete settle_fetch settle_job settle_result record_success record_failure
    result_map download_jobs resolve_path count_actions get_provider create_sync_run insert_row
    job_result insert lookup safe_join_under ensure_under_root clean_relative_path is_parent abs
    is_abs join rel rel_elements clean parse render text_beq split has_prefix join_with
all_synced = refl

sync_all-Covers_example :
    All
      (Covers
        (λ name. sync_provider a_env name options)
        (provider_enabled enabled_p)
        (λ name. false)
        (sync_all a_env enabled_p options (λ name. false) before))
      (provider_names a_env.registry)
sync_all-Covers_example = sync_all-Covers a_env enabled_p options (λ name. false) before all_synced
