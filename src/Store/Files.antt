-- ===== src/Store/Files.antt =====
-- The file record operations of internal/store/sqlite.go.
pub mod Laws
pub mod Unique
pub mod Delete
use ocp_offline.Prelude.{
  ℕ, zero, suc, ◌+◌, Text, Bool, ◌&&◌, ◌||◌, not, List, [], ◌∷◌, ◌++◌, Option, none, some, Result,
  ok, err, ◌≡◌, refl, nat_eq, text_eq, ◌==◌, if◌then◌else◌, ltb, keep, sum_by, sort_by, text_lt,
}
use ocp_offline.Store.Models.{FileRecord}
use ocp_offline.Store.Table.{
  Row, Table, Fault, StoreError, not_found, exec, affected, query, count_where, first_where,
  delete_where,
}

-- WHERE provider = ? AND path = ?
abbrev pub at_path : Text → Text → FileRecord → Bool
at_path provider path r = r.provider == provider && r.path == path

abbrev pub of_provider : Text → FileRecord → Bool
of_provider provider r = r.provider == provider

-- The key of the row that INSERT OR REPLACE writes: a new one if none is given.
abbrev pub chosen_key : ℕ → ℕ → ℕ
chosen_key seq id = if id == 0 then suc seq else id

abbrev pub greater : ℕ → ℕ → ℕ
greater a b = if ltb a b then b else a

-- INSERT OR REPLACE: rows that clash with the key or with UNIQUE(provider, path) go.
unfoldable pub replace_file : FileRecord → Table FileRecord → ℕ × Table FileRecord
replace_file rec t =
    let n = chosen_key t.seq rec.id in
    (
      n,
      record {
        rows =
            delete_where (λ r. r.id == n || at_path rec.provider rec.path r) t.rows
            ++ record rec { id = n } ∷ [];
        seq = greater t.seq n;
      },
    )

-- UpsertFileRecord: the id of the row
unfoldable pub upsert_file_record :
    Fault → FileRecord → Table FileRecord → Result StoreError ℕ × Table FileRecord
upsert_file_record fault rec t = exec fault t (replace_file rec)

-- GetFileRecord
unfoldable pub get_file_record :
    Fault → Text → Text → Table FileRecord → Result StoreError FileRecord
get_file_record fault provider path t =
    elim (query fault (first_where (at_path provider path) t.rows)) [
      | ok none ↦ err not_found
      | ok (some rec) ↦ ok rec
      | err e ↦ err e
    ]

-- ListFileRecords, by path
unfoldable pub list_file_records :
    Fault → Text → Table FileRecord → Result StoreError (List FileRecord)
list_file_records fault provider t =
    query fault
      (sort_by (λ (a b : FileRecord). text_lt a.path b.path) (keep (of_provider provider) t.rows))

-- DeleteFileRecord
unfoldable pub delete_file_record :
    Fault → Text → Text → Table FileRecord → Result StoreError (Unit {0}) × Table FileRecord
delete_file_record fault provider path t = affected (
    exec fault t (λ s. (
      count_where (at_path provider path) s.rows,
      record s { rows = delete_where (at_path provider path) s.rows },
    )))

-- CountFileRecords
unfoldable pub count_file_records : Fault → Text → Table FileRecord → Result StoreError ℕ
count_file_records fault provider t = query fault (count_where (of_provider provider) t.rows)

-- SumFileSize
unfoldable pub sum_file_size : Fault → Text → Table FileRecord → Result StoreError ℕ
sum_file_size fault provider t =
    query fault (sum_by (λ r. r.size) (keep (of_provider provider) t.rows))
