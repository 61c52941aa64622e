-- ===== src/Engine/Sync/Counts/Loop.antt =====
-- What the loop over the actions of a plan counts.
use ocp_offline.Prelude.{
  ℕ, ◌+◌, ◌≡◌, Text, text_eq, Bool, true, false, List, [], ◌∷◌, Option, none, some, Result, ok, err,
  if◌then◌else◌, length, length-append, arith, Map, lookup,
}
use ocp_offline.Safety.Path.{PathError}
use ocp_offline.Provider.{ActionType, download, delete_file, skip, update, SyncAction}
use ocp_offline.Download.Client.{DownloadResult}
use ocp_offline.Download.Pool.{PoolResult}
use ocp_offline.Engine.Sync.Base.{SyncEnv}
use ocp_offline.Engine.Sync.Actions.{
  is_fetch, is_skip, count_actions, resolve_path, Progress, record_success, record_failure,
  settle_result, settle_job, settle_fetch, settle_delete, settle_action, settle_actions,
  fail_action,
}

-- From one point of the loop to another, so many files were downloaded or failed, and so many skipped.
pub record Counts (fetched skipped : ℕ) (p q : Progress) : Type 0 where
  pub each : q.tally.downloaded + q.tally.failed ≡ p.tally.downloaded + p.tally.failed + fetched
  pub skips : q.tally.skipped ≡ p.tally.skipped + skipped
  pub listed : length q.failed_files + p.tally.failed ≡ length p.failed_files + q.tally.failed

fail-Counts :
    (a : SyncAction) (message : Text) (attempts : ℕ) (p : Progress)
    → Counts 1 0 p (fail_action a message attempts p)
fail-Counts a message attempts p =
    let l =
      length-append p.failed_files
        (record { path = a.path; url = a.url; error = message; attempts = attempts } ∷ []) in
    record { each = omega arith; skips = omega arith; listed = omega (arith, l) }

record_failure-Counts :
    (env : SyncEnv) (name : Text) (a : SyncAction) (dest message : Text) (p : Progress)
    → Counts 1 0 p (record_failure env name a dest message p)
unfolding record_failure
record_failure-Counts env name a dest message p =
    let c = fail-Counts a message 1 p in
    record { each = c.each; skips = c.skips; listed = c.listed }

record_success-Counts :
    (env : SyncEnv) (name : Text) (run_id : ℕ) (a : SyncAction) (d : DownloadResult) (p : Progress)
    → Counts 1 0 p (record_success env name run_id a d p)
unfolding record_success
record_success-Counts env name run_id a d p = record {
  each = omega arith;
  skips = omega arith;
  listed = omega arith;
}

pick-Counts :
    (f s : ℕ) (b : Bool) (p u v : Progress)
    → Counts f s p u
    → Counts f s p v
    → Counts f s p (if b then u else v)
pick-Counts f s true p u v h k = h
pick-Counts f s false p u v h k = k

module _ (env : SyncEnv) (name root : Text) (run_id : ℕ) (results : Map PoolResult) where
  settle_result-Counts :
      (a : SyncAction) (dest : Text) (r : PoolResult) (d : Option DownloadResult) (p : Progress)
      → Counts 1 0 p (settle_result env name run_id a dest r d p)
  unfolding settle_result
  settle_result-Counts a dest r none p = record_failure-Counts env name a dest _ p
  settle_result-Counts a dest r (some d) p =
      pick-Counts 1 0 r.success p _ _ (record_success-Counts env name run_id a d p)
        (record_failure-Counts env name a dest _ p)

  settle_job-Counts :
      (a : SyncAction) (dest : Text) (r : Option PoolResult) (p : Progress)
      → Counts 1 0 p (settle_job env name run_id a dest r p)
  unfolding settle_job
  settle_job-Counts a dest none p = fail-Counts a _ 1 p
  settle_job-Counts a dest (some r) p = settle_result-Counts a dest r r.download p

  settle_fetch-Counts :
      (a : SyncAction) (dest : Result PathError Text) (p : Progress)
      → Counts 1 0 p (settle_fetch env name run_id results a dest p)
  unfolding settle_fetch
  settle_fetch-Counts a (err e) p = fail-Counts a _ 0 p
  settle_fetch-Counts a (ok dest) p = settle_job-Counts a dest (lookup dest results) p

  settle_delete-Counts :
      (a : SyncAction) (dest : Result PathError Text) (p : Progress)
      → Counts 0 0 p (settle_delete env name a dest p)
  unfolding settle_delete
  settle_delete-Counts a (err e) p = record {
    each = omega arith;
    skips = omega arith;
    listed = omega arith;
  }
  settle_delete-Counts a (ok dest) p = record {
    each = omega arith;
    skips = omega arith;
    listed = omega arith;
  }

  abbrev one : Bool → ℕ
  one b = if b then 1 else 0

  settle_action-Counts :
      (a : SyncAction) (kind : ActionType) (p : Progress)
      → Counts
          (one (is_fetch kind))
          (one (is_skip kind))
          p
          (settle_action env name root run_id results a kind p)
  unfolding settle_action
  settle_action-Counts a download p = settle_fetch-Counts a (resolve_path env.cwd root a) p
  settle_action-Counts a update p = settle_fetch-Counts a (resolve_path env.cwd root a) p
  settle_action-Counts a delete_file p = settle_delete-Counts a (resolve_path env.cwd root a) p
  settle_action-Counts a skip p = record {
    each = omega arith;
    skips = omega arith;
    listed = omega arith;
  }

  pub settle_actions-Counts :
      (as' : List SyncAction) (p : Progress)
      → Counts
          (count_actions is_fetch as')
          (count_actions is_skip as')
          p
          (settle_actions env name root run_id results as' p)
  unfolding settle_actions count_actions
  settle_actions-Counts [] p = record {
    each = omega arith;
    skips = omega arith;
    listed = omega arith;
  }
  settle_actions-Counts (a ∷ as') p =
      let q = settle_action env name root run_id results a a.action p in
      let h = settle_action-Counts a a.action p in
      let k = settle_actions-Counts as' q in
      record {
        each = omega (arith, h.each, k.each);
        skips = omega (arith, h.skips, k.skips);
        listed = omega (arith, h.listed, k.listed);
      }
