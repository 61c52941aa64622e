-- ===== src/Engine/Sync/Settled.antt =====
-- The destinations of a sync's downloads and deletions, and what the loop over the actions does on disk.
use ocp_offline.Prelude.{
  ℕ, ◌≡◌, refl, subst, inl, inr, Text, text_eq, text_beq_iff, Bool, true, false, List, [], ◌∷◌, All,
  Option, none, some, Result, ok, err, ◌==◌, ◌||◌, Bool-cases, Map, lookup, delete, lookup-delete,
  is_empty,
}
use ocp_offline.Safety.Path.{PathError}
use ocp_offline.Safety.Path.Containment.{RootedCwd}
use ocp_offline.Safety.Path.Guarantees.{safe_join_under_confined, ensure_under_root_confined}
use ocp_offline.Provider.{ActionType, download, delete_file, skip, update, SyncAction}
use ocp_offline.Download.Client.{DownloadResult}
use ocp_offline.Download.Pool.{Job, PoolResult}
use ocp_offline.Engine.Import.Confined.{IsConfined, Spares, Spares-trans}
use ocp_offline.Engine.Sync.Base.{Disk, SyncEnv}
use ocp_offline.Engine.Sync.Actions.{
  is_fetch, resolve_path, with_job, download_jobs, Progress, record_success, record_failure,
  settle_result, settle_job, settle_fetch, settle_delete, settle_action, settle_actions,
}

-- Whether a job has this destination.
unfoldable pub is_destination : Text → List Job → Bool
is_destination q [] = false
is_destination q (j ∷ js) = let rest = is_destination q js in (j.dest_path == q) || rest

module _ (cwd : Option Text) (w : RootedCwd cwd) (root : Text) where
  resolve_path-IsConfined :
      (a : SyncAction) (p : Text) → resolve_path cwd root a ≡ ok p → IsConfined cwd root p
  unfolding resolve_path
  resolve_path-IsConfined a p h = elim (Bool-cases (is_empty a.local_path)) [
    | inl e ↦ safe_join_under_confined cwd root a.path w (rw e at h)
    | inr e ↦ ensure_under_root_confined cwd root a.local_path w (rw e at h)
  ]

  -- The jobs, if there are any, have destinations below the root.
  abbrev pub AreConfined : Result Text (List Job) → Type 0
  AreConfined (err e) = Unit
  AreConfined (ok jobs) = All (λ j. IsConfined cwd root j.dest_path) jobs

  with_job-AreConfined :
      (a : SyncAction) (dest : Result PathError Text) (rest : Result Text (List Job))
      → ((p : Text) → dest ≡ ok p → IsConfined cwd root p)
      → AreConfined rest
      → AreConfined (with_job a dest rest)
  with_job-AreConfined a (err e) rest h k = tt
  with_job-AreConfined a (ok dest) (err e) h k = tt
  with_job-AreConfined a (ok dest) (ok jobs) h k = (h dest refl, k)

  pub download_jobs-AreConfined : (as' : List SyncAction) → AreConfined (download_jobs cwd root as')
  unfolding download_jobs
  download_jobs-AreConfined [] = tt
  download_jobs-AreConfined (a ∷ as') = elim (Bool-cases (is_fetch a.action)) [
    | inl e ↦ rw e (
        with_job-AreConfined a (resolve_path cwd root a) _ (resolve_path-IsConfined a)
          (download_jobs-AreConfined as'))
    | inr e ↦ rw e (download_jobs-AreConfined as')
  ]

  pub destination-IsConfined :
      (q : Text) (jobs : List Job)
      → All (λ j. IsConfined cwd root j.dest_path) jobs
      → is_destination q jobs ≡ true
      → IsConfined cwd root q
  unfolding is_destination
  destination-IsConfined q [] c h = absurd (cc h)
  destination-IsConfined q (j ∷ js) (c, cs) h = elim (Bool-cases (j.dest_path == q)) [
    | inl e ↦
        let same : j.dest_path ≡ q = (text_beq_iff j.dest_path q).0 e in
        subst (λ t. IsConfined cwd root t) same c
    | inr e ↦ destination-IsConfined q js cs (rw e at h)
  ]

  delete-Spares :
      (q path : Text) (d : Disk) → IsConfined cwd root path → Spares cwd root q d (delete path d)
  delete-Spares q path d c = elim (Bool-cases (path == q)) [
    | inl e ↦ let same : path ≡ q = (text_beq_iff path q).0 e in inr (rw same at c)
    | inr e ↦ inl (rw (lookup-delete path q d, e))
  ]

  pub same-Spares : (q : Text) (d d' : Disk) → d' ≡ d → Spares cwd root q d d'
  same-Spares q d d' e = inl (rw e)

  -- The loop over the actions.
  module _ (env : SyncEnv) (here : env.cwd ≡ cwd) (name : Text) (run_id : ℕ)
      (results : Map PoolResult) (q : Text) where
    settle_result-disk :
        (a : SyncAction) (dest : Text) (r : PoolResult) (d : Option DownloadResult) (p : Progress)
        → (settle_result env name run_id a dest r d p).state.disk ≡ p.state.disk
    unfolding settle_result record_success record_failure
    settle_result-disk a dest r none p = refl
    settle_result-disk a dest r (some d) p = elim (Bool-cases r.success) [
      | inl e ↦ rw e refl
      | inr e ↦ rw e refl
    ]

    settle_job-disk :
        (a : SyncAction) (dest : Text) (r : Option PoolResult) (p : Progress)
        → (settle_job env name run_id a dest r p).state.disk ≡ p.state.disk
    unfolding settle_job
    settle_job-disk a dest none p = refl
    settle_job-disk a dest (some r) p = settle_result-disk a dest r r.download p

    settle_fetch-disk :
        (a : SyncAction) (dest : Result PathError Text) (p : Progress)
        → (settle_fetch env name run_id results a dest p).state.disk ≡ p.state.disk
    unfolding settle_fetch
    settle_fetch-disk a (err e) p = refl
    settle_fetch-disk a (ok dest) p = settle_job-disk a dest (lookup dest results) p

    settle_delete-Spares :
        (a : SyncAction) (dest : Result PathError Text) (p : Progress)
        → ((file : Text) → dest ≡ ok file → IsConfined cwd root file)
        → Spares cwd root q p.state.disk (settle_delete env name a dest p).state.disk
    unfolding settle_delete
    settle_delete-Spares a (err e) p h = inl refl
    settle_delete-Spares a (ok file) p h = elim (Bool-cases (env.can_remove file)) [
      | inl e ↦ rw e (delete-Spares q file p.state.disk (h file refl))
      | inr e ↦ rw e (inl refl)
    ]

    settle_action-Spares :
        (a : SyncAction) (kind : ActionType) (p : Progress)
        → Spares cwd root q p.state.disk
            (settle_action env name root run_id results a kind p).state.disk
    unfolding settle_action
    settle_action-Spares a download p = same-Spares q _ _ (settle_fetch-disk a _ p)
    settle_action-Spares a update p = same-Spares q _ _ (settle_fetch-disk a _ p)
    settle_action-Spares a delete_file p =
        settle_delete-Spares a (resolve_path env.cwd root a) p
          (λ file h. resolve_path-IsConfined a file (rw here at h))
    settle_action-Spares a skip p = inl refl

    pub settle_actions-Spares :
        (as' : List SyncAction) (p : Progress)
        → Spares cwd root q p.state.disk
            (settle_actions env name root run_id results as' p).state.disk
    unfolding settle_actions
    settle_actions-Spares [] p = inl refl
    settle_actions-Spares (a ∷ as') p =
        let p' = settle_action env name root run_id results a a.action p in
        Spares-trans cwd root q p.state.disk p'.state.disk _ (settle_action-Spares a a.action p)
          (settle_actions-Spares as' p')
