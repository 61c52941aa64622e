-- ===== src/Store/SyncRuns.antt =====
-- The sync run operations of internal/store/sqlite.go.
pub mod Laws
use ocp_offline.Prelude.{
  ℕ, Text, Bool, true, ltb, ◌≡◌, refl, List, Option, none, some, Result, ok, err, nat_eq, text_eq,
  ◌==◌, if◌then◌else◌, is_empty, keep, take, sort_by,
}
use ocp_offline.Store.Models.{SyncRun}
use ocp_offline.Store.Table.{
  Row, Table, Fault, StoreError, not_found, exec, affected, query, update_where, count_where,
  first_where, insert_row, has_key,
}

pub with_id-id : (n : ℕ) (a : SyncRun) → (record a { id = n }).id ≡ n
with_id-id n a = refl

instance abbrev pub sync_run_row : Row SyncRun
sync_run_row = record {
  key = λ a. a.id;
  with_key = λ n a. record a { id = n };
  key-with_key = with_id-id;
}

-- CreateSyncRun: the id of the new row
unfoldable pub create_sync_run :
    Fault → SyncRun → Table SyncRun → Result StoreError ℕ × Table SyncRun
create_sync_run fault run t = exec fault t (insert_row run)

-- UpdateSyncRun
unfoldable pub update_sync_run :
    Fault → SyncRun → Table SyncRun → Result StoreError (Unit {0}) × Table SyncRun
update_sync_run fault run t = affected (
    exec fault t (λ s. (
      count_where (has_key run.id) s.rows,
      record s { rows = update_where (has_key run.id) (λ old. run) s.rows },
    )))

-- GetSyncRun
unfoldable pub get_sync_run : Fault → ℕ → Table SyncRun → Result StoreError SyncRun
get_sync_run fault id t = elim (query fault (first_where (has_key id) t.rows)) [
  | ok none ↦ err not_found
  | ok (some run) ↦ ok run
  | err e ↦ err e
]

-- `LIMIT ?`, if the limit is positive
abbrev pub limited : {A : Type 0} → ℕ → List A → List A
limited limit rows = if ltb 0 limit then take limit rows else rows

-- ListSyncRuns, newest first
unfoldable pub list_sync_runs : Fault → Text → ℕ → Table SyncRun → Result StoreError (List SyncRun)
list_sync_runs fault provider limit t = query fault (
    limited limit (
      sort_by (λ (a b : SyncRun). ltb b.start_time a.start_time)
        (keep (λ run. if is_empty provider then true else run.provider == provider) t.rows)))
