-- ===== src/Engine/Sync/Reach.antt =====
-- What a sync changes on disk.
use ocp_offline.Prelude.{
  ℕ, ◌≡◌, refl, nat_eq, ◌⊎◌, inl, inr, Text, text_eq, Bool, true, false, List, All, Option, none,
  some, Result, ok, err, ◌==◌, if◌then◌else◌, length, Bool-cases, lookup,
}
use ocp_offline.Safety.Path.{PathError, safe_join_under}
use ocp_offline.Safety.Path.Containment.{RootedCwd}
use ocp_offline.Provider.{SyncPlan, SyncOptions, Provider}
use ocp_offline.Download.Pool.{Job}
use ocp_offline.Store.Models.{SyncRun}
use ocp_offline.Store.Table.{StoreError}
use ocp_offline.Engine.Import.Confined.{IsConfined, Spares, Spares-trans}
use ocp_offline.Engine.Sync.Base.{Disk, SyncEnv, SyncState}
use ocp_offline.Engine.Sync.Actions.{download_jobs}
use ocp_offline.Engine.Sync.{
  SyncOutcome, start_progress, fail_plan, dry_sync, report_sync, run_jobs, execute_sync, real_sync,
  planned_sync, started_sync, found_sync, sync_provider,
}
use ocp_offline.Engine.Sync.Settled.{
  is_destination, AreConfined, download_jobs-AreConfined, destination-IsConfined,
  settle_actions-Spares,
}

-- What a disk holds at a path is as before, or the path is below the directory of the provider.
abbrev pub SparesOthers : SyncEnv → Text → Text → Disk → Disk → Type 0
SparesOthers env name q d d' =
    (lookup q d' ≡ lookup q d)
    ⊎ ((root : Text) × (safe_join_under env.cwd env.data_dir name ≡ ok root)
        × IsConfined env.cwd root q)

module _ (env : SyncEnv) (w : RootedCwd env.cwd)
    (pool : (jobs : List Job) (d : Disk) (q : Text)
      → is_destination q jobs ≡ false
      → lookup q (env.pool_disk jobs d) ≡ lookup q d)
    (name : Text) (opts : SyncOptions) (q : Text) where
  pool-Spares :
      (root : Text) (jobs : List Job) (d : Disk)
      → All (λ j. IsConfined env.cwd root j.dest_path) jobs
      → Spares env.cwd root q d (env.pool_disk jobs d)
  pool-Spares root jobs d c = elim (Bool-cases (is_destination q jobs)) [
    | inl e ↦ inr (destination-IsConfined env.cwd w root q jobs c e)
    | inr e ↦ inl (pool jobs d q e)
  ]

  run_jobs-Spares :
      (root : Text) (run : SyncRun) (plan : SyncPlan) (jobs : List Job) (st : SyncState)
      → All (λ j. IsConfined env.cwd root j.dest_path) jobs
      → Spares env.cwd root q st.disk (run_jobs env name root opts run plan jobs st).state.disk
  unfolding run_jobs
  run_jobs-Spares root run plan jobs st c = elim (Bool-cases (length jobs == 0)) [
    | inl e ↦ rw e (
        settle_actions-Spares env.cwd w root env refl name run.id _ q plan.actions
          (start_progress st))
    | inr e ↦ rw e (
        Spares-trans env.cwd root q st.disk (env.pool_disk jobs st.disk) _
          (pool-Spares root jobs st.disk c)
          (settle_actions-Spares env.cwd w root env refl name run.id _ q plan.actions
            (start_progress _)))
  ]

  execute_sync-Spares :
      (root : Text) (run : SyncRun) (plan : SyncPlan) (jobs : Result Text (List Job))
      (st : SyncState)
      → AreConfined env.cwd w root jobs
      → Spares env.cwd root q st.disk (execute_sync env name root opts run plan jobs st).1.disk
  unfolding execute_sync report_sync
  execute_sync-Spares root run plan (err path) st c = inl refl
  execute_sync-Spares root run plan (ok jobs) st c = run_jobs-Spares root run plan jobs st c

  lift-Spares :
      (root : Text) (d d' : Disk)
      → safe_join_under env.cwd env.data_dir name ≡ ok root
      → Spares env.cwd root q d d'
      → SparesOthers env name q d d'
  lift-Spares root d d' e (inl h) = inl h
  lift-Spares root d d' e (inr c) = inr (root, e, c)

  real_sync-SparesOthers :
      (run : SyncRun) (plan : SyncPlan) (root : Result PathError Text) (st : SyncState)
      → safe_join_under env.cwd env.data_dir name ≡ root
      → SparesOthers env name q st.disk (real_sync env name opts run plan root st).1.disk
  unfolding real_sync
  real_sync-SparesOthers run plan (err e) st h = inl refl
  real_sync-SparesOthers run plan (ok root) st h = lift-Spares root _ _ h (
      execute_sync-Spares root run plan (download_jobs env.cwd root plan.actions) st
        (download_jobs-AreConfined env.cwd w root plan.actions))

  pick-SparesOthers :
      (b : Bool) (d : Disk) (x y : SyncOutcome)
      → SparesOthers env name q d x.1.disk
      → SparesOthers env name q d y.1.disk
      → SparesOthers env name q d (if b then x else y).1.disk
  pick-SparesOthers true d x y h k = h
  pick-SparesOthers false d x y h k = k

  planned_sync-SparesOthers :
      (run : SyncRun) (plan : Result Text SyncPlan) (st : SyncState)
      → SparesOthers env name q st.disk (planned_sync env name opts run plan st).1.disk
  unfolding planned_sync fail_plan dry_sync
  planned_sync-SparesOthers run (err message) st = inl refl
  planned_sync-SparesOthers run (ok plan) st =
      pick-SparesOthers opts.dry_run st.disk (dry_sync env name run plan _) _ (inl refl)
        (real_sync-SparesOthers run plan _ _ refl)

  -- The disk is as before, or it is what the plan left of it but below the provider's directory.
  abbrev SparesUnplanned : Disk → Disk → Type 0
  SparesUnplanned d d' =
      (lookup q d' ≡ lookup q d) ⊎ SparesOthers env name q (env.plan_disk name d) d'

  started_sync-SparesUnplanned :
      (p : Provider) (created : Result StoreError ℕ) (st : SyncState)
      → SparesUnplanned st.disk (started_sync env name opts p created st).1.disk
  unfolding started_sync
  started_sync-SparesUnplanned p (err e) st = inl refl
  started_sync-SparesUnplanned p (ok id) st = inr (planned_sync-SparesOthers _ p.plan _)

  found_sync-SparesUnplanned :
      (p : Option Provider) (st : SyncState)
      → SparesUnplanned st.disk (found_sync env name opts p st).1.disk
  unfolding found_sync
  found_sync-SparesUnplanned none st = inl refl
  found_sync-SparesUnplanned (some p) st = started_sync-SparesUnplanned p _ _

  -- Where the pool of downloads writes to the destinations of its jobs only, what a disk holds at a
  -- path after a sync is what it held before, or what the provider's Plan left there, or the path is
  -- below the directory of the provider. This holds whatever the plan downloads and deletes and
  -- whatever the sync fails with; the working directory is a rooted path.
  pub sync_provider-SparesOthers :
      (st : SyncState)
      → (lookup q (sync_provider env name opts st).1.disk ≡ lookup q st.disk)
        ⊎ SparesOthers env name q
            (env.plan_disk name st.disk)
            (sync_provider env name opts st).1.disk
  unfolding sync_provider
  sync_provider-SparesOthers st = found_sync-SparesUnplanned _ _
