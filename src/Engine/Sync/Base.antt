-- ===== src/Engine/Sync/Base.antt =====
-- The state and the surroundings of the operations in internal/engine/sync.go. What the pool of
-- downloads returns and does is a parameter: its results, the calls of the tracker, and the disk that
-- it leaves. The disk that the Plan of a provider leaves is one too, since Plan caches metadata there.
-- Texts of messages that only tell an error are the error's own.
use ocp_offline.Prelude.{ℕ, Text, Bool, List, Option}
use ocp_offline.Prelude.{Map}
use ocp_offline.Provider.{Registry}
use ocp_offline.Download.Pool.{Job, PoolResult}
use ocp_offline.Download.Client.{DownloadError}
use ocp_offline.Engine.Progress.{SyncTracker, TrackerCall}
use ocp_offline.Store.Models.{SyncRun, FileRecord, FailedFileRecord}
use ocp_offline.Store.Table.{Table, Fault}

-- The files on disk, by absolute path.
abbrev pub Disk : Type 0
Disk = Map Text

pub data SyncError : Type 0 where
  provider_not_found create_run_failed invalid_root : SyncError
  plan_failed unsafe_path : Text → SyncError

-- What the store's driver reports, by statement.
pub record SyncFaults : Type 0 where
  pub on_create_run : Fault
  pub on_update_run : Fault
  pub on_upsert : Text → Fault
  pub on_delete : Text → Fault
  pub on_failed_update : Text → Fault
  pub on_failed_insert : Text → Fault

pub record SyncEnv : Type 0 where
  pub registry : Registry
  pub data_dir : Text
  pub cwd : Option Text
  pub now : ℕ
  pub faults : SyncFaults
  pub plan_disk : Text → Disk → Disk
  pub run_pool : ℕ → List Job → List PoolResult
  pub pool_calls : List Job → List TrackerCall
  pub pool_disk : List Job → Disk → Disk
  pub can_remove : Text → Bool
  pub error_text : DownloadError → Text

pub record SyncState : Type 0 where
  pub runs : Table SyncRun
  pub files : Table FileRecord
  pub failed : Table FailedFileRecord
  pub disk : Disk
  pub tracker : Option SyncTracker

-- What the loop over the actions counts.
pub record Tally : Type 0 where
  pub downloaded : ℕ
  pub failed : ℕ
  pub skipped : ℕ
  pub bytes : ℕ
