-- ===== src/Engine/Sync/Runs/Kept.antt =====
-- The loop over the actions of a plan leaves the sync runs alone.
use ocp_offline.Prelude.{
  ℕ, ◌≡◌, ◌∙◌, refl, Text, text_eq, nat_eq, Bool, true, false, List, [], ◌∷◌, Option, none, some,
  Result, ok, err, if◌then◌else◌, Map, lookup,
}
use ocp_offline.Safety.Path.{PathError}
use ocp_offline.Provider.{ActionType, download, delete_file, skip, update, SyncAction}
use ocp_offline.Download.Client.{DownloadResult}
use ocp_offline.Download.Pool.{PoolResult}
use ocp_offline.Store.Models.{SyncRun}
use ocp_offline.Store.Table.{Table}
use ocp_offline.Store.SyncRuns.{sync_run_row}
use ocp_offline.Engine.Sync.Base.{SyncEnv}
use ocp_offline.Engine.Sync.Actions.{
  resolve_path, Progress, record_success, record_failure, settle_result, settle_job, settle_fetch,
  settle_delete, settle_action, settle_actions,
}

module _ (env : SyncEnv) (name root : Text) (run_id : ℕ) (results : Map PoolResult) where
  pick-runs :
      (b : Bool) (t : Table SyncRun) (u v : Progress)
      → u.state.runs ≡ t
      → v.state.runs ≡ t
      → (if b then u else v).state.runs ≡ t
  pick-runs true t u v h k = h
  pick-runs false t u v h k = k

  settle_result-runs :
      (a : SyncAction) (dest : Text) (r : PoolResult) (d : Option DownloadResult) (p : Progress)
      → (settle_result env name run_id a dest r d p).state.runs ≡ p.state.runs
  unfolding settle_result record_success record_failure
  settle_result-runs a dest r none p = refl
  settle_result-runs a dest r (some d) p = pick-runs r.success p.state.runs _ _ refl refl

  settle_job-runs :
      (a : SyncAction) (dest : Text) (r : Option PoolResult) (p : Progress)
      → (settle_job env name run_id a dest r p).state.runs ≡ p.state.runs
  unfolding settle_job
  settle_job-runs a dest none p = refl
  settle_job-runs a dest (some r) p = settle_result-runs a dest r r.download p

  settle_fetch-runs :
      (a : SyncAction) (dest : Result PathError Text) (p : Progress)
      → (settle_fetch env name run_id results a dest p).state.runs ≡ p.state.runs
  unfolding settle_fetch
  settle_fetch-runs a (err e) p = refl
  settle_fetch-runs a (ok dest) p = settle_job-runs a dest (lookup dest results) p

  settle_delete-runs :
      (a : SyncAction) (dest : Result PathError Text) (p : Progress)
      → (settle_delete env name a dest p).state.runs ≡ p.state.runs
  unfolding settle_delete
  settle_delete-runs a (err e) p = refl
  settle_delete-runs a (ok dest) p = refl

  settle_action-runs :
      (a : SyncAction) (kind : ActionType) (p : Progress)
      → (settle_action env name root run_id results a kind p).state.runs ≡ p.state.runs
  unfolding settle_action
  settle_action-runs a download p = settle_fetch-runs a (resolve_path env.cwd root a) p
  settle_action-runs a update p = settle_fetch-runs a (resolve_path env.cwd root a) p
  settle_action-runs a delete_file p = settle_delete-runs a (resolve_path env.cwd root a) p
  settle_action-runs a skip p = refl

  pub settle_actions-runs :
      (as' : List SyncAction) (p : Progress)
      → (settle_actions env name root run_id results as' p).state.runs ≡ p.state.runs
  unfolding settle_actions
  settle_actions-runs [] p = refl
  settle_actions-runs (a ∷ as') p =
      settle_actions-runs as' (settle_action env name root run_id results a a.action p)
      ∙ settle_action-runs a a.action p
