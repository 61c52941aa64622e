-- ===== src/Store/Failed.antt =====
-- The dead letter queue of internal/store/sqlite.go.
pub mod Laws
use ocp_offline.Prelude.{
  ℕ, zero, suc, ◌+◌, Text, Bool, true, ◌&&◌, not, List, Option, none, some, Result, ok, err, ◌≡◌,
  refl, ◌>>=◌, nat_eq, text_eq, ◌==◌, if◌then◌else◌, ltb, is_empty, keep, sort_by,
}
use ocp_offline.Store.Models.{FailedFileRecord}
use ocp_offline.Store.Table.{
  Row, Table, Fault, no_fault, at_exec, after_exec, StoreError, exec_failed, exec, affected, query,
  update_where, count_where, insert_row, has_key,
}

pub with_id-id : (n : ℕ) (a : FailedFileRecord) → (record a { id = n }).id ≡ n
with_id-id n a = refl

instance abbrev pub failed_row : Row FailedFileRecord
failed_row = record {
  key = λ a. a.id;
  with_key = λ n a. record a { id = n };
  key-with_key = with_id-id;
}

-- WHERE provider = ? AND file_path = ? AND resolved = 0
abbrev pub is_open : Text → Text → FailedFileRecord → Bool
is_open provider path r = (r.provider == provider && r.file_path == path) && not r.resolved

-- COALESCE(NULLIF(?, ''), column)
abbrev pub or_old : Text → Text → Text
or_old new old = if is_empty new then old else new

-- The SET clauses of the update.
unfoldable pub merge_failure : FailedFileRecord → FailedFileRecord → FailedFileRecord
merge_failure rec old = record old {
  error = rec.error;
  retry_count = old.retry_count + 1;
  last_failure = rec.last_failure;
  url = or_old rec.url old.url;
  dest_path = or_old rec.dest_path old.dest_path;
  expected_checksum = or_old rec.expected_checksum old.expected_checksum;
  expected_size = if ltb 0 rec.expected_size then rec.expected_size else old.expected_size;
}

abbrev pub open_at : FailedFileRecord → FailedFileRecord → Bool
open_at rec = is_open rec.provider rec.file_path

-- The update of the open records for the file, with the number of rows.
unfoldable pub merge_open : FailedFileRecord → Table FailedFileRecord → ℕ × Table FailedFileRecord
merge_open rec t = (
  count_where (open_at rec) t.rows,
  record t { rows = update_where (open_at rec) (merge_failure rec) t.rows },
)

-- AddFailedFile: the id of a new row, or `none` where open records were updated. The error of
-- RowsAffected is dropped, so with `after_exec` on the update the number of rows is read as 0.
unfoldable pub add_failed_file :
    Fault
    → Fault
    → FailedFileRecord
    → Table FailedFileRecord
    → Result StoreError (Option ℕ) × Table FailedFileRecord
add_failed_file at_exec on_insert rec t = (err exec_failed, t)
add_failed_file after_exec on_insert rec t =
    let (n, t') = merge_open rec t in
    let (res, t'') = exec on_insert t' (insert_row rec) in (res >>= (λ id. ok (some id)), t'')
add_failed_file no_fault on_insert rec t =
    let (n, t') = merge_open rec t in
    let (res, t'') = exec on_insert t' (insert_row rec) in
    if ltb 0 n then (ok none, t') else (res >>= (λ id. ok (some id)), t'')

-- ListFailedFiles, newest failure first
unfoldable pub list_failed_files :
    Fault → Text → Table FailedFileRecord → Result StoreError (List FailedFileRecord)
list_failed_files fault provider t = query fault (
    sort_by (λ (a b : FailedFileRecord). ltb b.last_failure a.last_failure)
      (keep (λ r. r.provider == provider && not r.resolved) t.rows))

abbrev update_key :
    Fault
    → ℕ
    → (FailedFileRecord → FailedFileRecord)
    → Table FailedFileRecord
    → Result StoreError (Unit {0}) × Table FailedFileRecord
update_key fault id f t = affected (
    exec fault t (λ s.
      (count_where (has_key id) s.rows, record s { rows = update_where (has_key id) f s.rows })))

-- ResolveFailedFile
unfoldable pub resolve_failed_file :
    Fault → ℕ → Table FailedFileRecord → Result StoreError (Unit {0}) × Table FailedFileRecord
resolve_failed_file fault id t = update_key fault id (λ r. record r { resolved = true }) t

-- IncrementFailedRetry, at the time of the database
unfoldable pub increment_failed_retry :
    Fault → ℕ → ℕ → Table FailedFileRecord → Result StoreError (Unit {0}) × Table FailedFileRecord
increment_failed_retry fault now id t =
    update_key fault id (λ r. record r { retry_count = r.retry_count + 1; last_failure = now }) t
