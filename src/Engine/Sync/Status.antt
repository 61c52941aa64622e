-- ===== src/Engine/Sync/Status.antt =====
-- internal/engine/sync.go: Status, which asks the store about each provider.
use ocp_offline.Prelude.{
  ℕ, Text, text_eq, Bool, List, [], ◌∷◌, Result, ok, err, length, Map, insert, foldl,
}
use ocp_offline.Config.{RawConfig, provider_enabled}
use ocp_offline.Provider.{Registry, provider_names}
use ocp_offline.Store.Models.{SyncRun, FileRecord, FailedFileRecord}
use ocp_offline.Store.Table.{Table, Fault, StoreError}
use ocp_offline.Store.Files.{count_file_records, sum_file_size}
use ocp_offline.Store.SyncRuns.{list_sync_runs}
use ocp_offline.Store.Failed.{list_failed_files}

pub record ProviderStatus : Type 0 where
  pub name : Text
  pub enabled : Bool
  pub file_count : ℕ
  pub total_size : ℕ
  pub last_sync : ℕ
  pub last_status : Text
  pub failed_files : ℕ

pub record StatusFaults : Type 0 where
  pub on_count : Fault
  pub on_sum : Fault
  pub on_runs : Fault
  pub on_failed : Fault

pub record StatusStore : Type 0 where
  pub runs : Table SyncRun
  pub files : Table FileRecord
  pub failed : Table FailedFileRecord

abbrev pub number_or_zero : Result StoreError ℕ → ℕ
number_or_zero (ok n) = n
number_or_zero (err e) = 0

abbrev pub newest : Result StoreError (List SyncRun) → ℕ × Text
newest (ok (run ∷ runs)) = (run.start_time, run.status)
newest (ok []) = (0, [])
newest (err e) = (0, [])

abbrev pub failed_count : Result StoreError (List FailedFileRecord) → ℕ
failed_count (ok recs) = length recs
failed_count (err e) = 0

unfoldable pub status_of_provider :
    StatusFaults → StatusStore → Map RawConfig → Text → ProviderStatus
status_of_provider faults store providers name =
    let (last_sync, last_status) = newest (list_sync_runs faults.on_runs name 1 store.runs) in
    record {
      name = name;
      enabled = provider_enabled providers name;
      file_count = number_or_zero (count_file_records faults.on_count name store.files);
      total_size = number_or_zero (sum_file_size faults.on_sum name store.files);
      last_sync = last_sync;
      last_status = last_status;
      failed_files = failed_count (list_failed_files faults.on_failed name store.failed);
    }

-- `Status` of the manager
unfoldable pub all_statuses :
    StatusFaults → StatusStore → Map RawConfig → Registry → Map ProviderStatus
all_statuses faults store providers registry =
    foldl (λ m name. insert name (status_of_provider faults store providers name) m) []
      (provider_names registry)
