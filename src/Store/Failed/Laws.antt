-- ===== src/Store/Failed/Laws.antt =====
-- The dead letter queue holds at most one open record for a file.
use mathlib.Core.Path.{ap₂}
use mathlib.Core.Option
use ocp_offline.Prelude.{
  ℕ, suc, ◌+◌, ◌≡◌, refl, Text, Bool, true, false, ◌&&◌, List, [], ◌∷◌, ◌++◌, none, some, arith,
  nat_eq, text_eq, text_beq_iff, ◌==◌, if◌then◌else◌, Bool-cases, inl, inr, ltb, ◌↔◌, Option-cases,
}
use ocp_offline.Store.Models.{FailedFileRecord}
use ocp_offline.Store.Table.{
  Table, no_fault, update_where, count_where, insert_row, first_where, first_where-append,
}
use ocp_offline.Store.Failed.{
  is_open, merge_failure, open_at, merge_open, add_failed_file, failed_row,
}

-- The open records for a file.
abbrev pub open_count : Text → Text → Table FailedFileRecord → ℕ
open_count provider path t = count_where (is_open provider path) t.rows

count-append :
    (p : FailedFileRecord → Bool) (xs ys : List FailedFileRecord)
    → count_where p (xs ++ ys) ≡ count_where p xs + count_where p ys
unfolding count_where
count-append p [] ys = omega arith
count-append p (x ∷ xs) ys = omega (arith, count-append p xs ys)

-- An update leaves provider, path and state of a record alone.
count-merge :
    (rec : FailedFileRecord) (provider path : Text) (xs : List FailedFileRecord)
    → count_where (is_open provider path) (update_where (open_at rec) (merge_failure rec) xs)
      ≡ count_where (is_open provider path) xs
unfolding count_where update_where merge_failure
count-merge rec provider path [] = refl
count-merge rec provider path (x ∷ xs) = ground (arith, count-merge rec provider path xs)

count-insert :
    (rec : FailedFileRecord) (t : Table FailedFileRecord) (provider path : Text)
    → open_count provider path (insert_row rec t).1
      ≡ open_count provider path t + (if is_open provider path rec then 1 else 0)
unfolding insert_row
count-insert rec t provider path =
    rw (count-append (is_open provider path) t.rows (record rec { id = suc t.seq } ∷ []))
      (unfold count_where in ground arith)

-- An open record for a file is one of the provider and path of the file.
same_count :
    (rec : FailedFileRecord) (provider path : Text) (xs : List FailedFileRecord)
    → is_open provider path rec ≡ true
    → count_where (open_at rec) xs ≡ count_where (is_open provider path) xs
same_count rec provider path xs h =
    let p : rec.provider ≡ provider = ground (arith, text_beq_iff rec.provider provider) in
    let q : rec.file_path ≡ path = ground (arith, text_beq_iff rec.file_path path) in
    ap₂ (λ a b. count_where (is_open a b) xs) p q

add_state :
    (rec : FailedFileRecord) (t : Table FailedFileRecord)
    → (add_failed_file no_fault no_fault rec t).1 ≡ (
        if ltb 0 (count_where (open_at rec) t.rows)
        then (merge_open rec t).1
        else (insert_row rec (merge_open rec t).1).1)
unfolding add_failed_file merge_open
add_state rec t = ground arith

open-merge :
    (rec : FailedFileRecord) (t : Table FailedFileRecord) (provider path : Text)
    → open_count provider path (merge_open rec t).1 ≡ open_count provider path t
unfolding merge_open
open-merge rec t provider path = count-merge rec provider path t.rows

-- After an unresolved failure is added there is one open record for its file, if there was none
-- before; for every other file, and where there were open records before, their number is the same.
pub add_failed_file-open :
    (rec : FailedFileRecord) (t : Table FailedFileRecord) (provider path : Text)
    → open_count provider path (add_failed_file no_fault no_fault rec t).1 ≡ (
        if is_open provider path rec && open_count provider path t == 0
        then 1
        else open_count provider path t)
add_failed_file-open rec t provider path =
    rw (add_state rec t) (elim (Bool-cases (is_open provider path rec)) [
      | inl e ↦ ground (
        arith,
        same_count rec provider path t.rows e,
        open-merge rec t provider path,
        count-insert rec (merge_open rec t).1 provider path,
      )
      | inr e ↦ elim (Bool-cases (ltb 0 (count_where (open_at rec) t.rows))) [
        | inl c ↦ rw (c, e) (open-merge rec t provider path)
        | inr c ↦
            rw (c, e)
              (ground (
                arith,
                open-merge rec t provider path,
                count-insert rec (merge_open rec t).1 provider path,
              ))
      ]
    ])

first-merge :
    (rec : FailedFileRecord) (xs : List FailedFileRecord)
    → first_where (open_at rec) (update_where (open_at rec) (merge_failure rec) xs)
      ≡ Option.map (merge_failure rec) (first_where (open_at rec) xs)
unfolding first_where update_where merge_failure
first-merge rec [] = refl
first-merge rec (x ∷ xs) = ground (arith, first-merge rec xs)

none-open :
    (rec : FailedFileRecord) (xs : List FailedFileRecord)
    → (count_where (open_at rec) xs ≡ 0) ↔ (first_where (open_at rec) xs ≡ none)
unfolding count_where first_where
none-open rec [] = ((λ _. refl), (λ _. refl))
none-open rec (x ∷ xs) = ground (arith, none-open rec xs)

first-insert :
    (rec : FailedFileRecord) (t : Table FailedFileRecord)
    → rec.resolved ≡ false
    → first_where (open_at rec) t.rows ≡ none
    → first_where (open_at rec) (insert_row rec t).1.rows ≡ some (record rec { id = suc t.seq })
unfolding insert_row
first-insert rec t o h =
    rw (first_where-append, h)
      (unfold first_where in
        ground
          (arith, text_beq_iff rec.provider rec.provider, text_beq_iff rec.file_path rec.file_path))

-- A failure that is added shows in the queue: the open record of its file gets the new error, one
-- more retry and the new values that are not empty; without an open record it is a new one itself.
pub add_failed_file-first :
    (rec : FailedFileRecord) (t : Table FailedFileRecord)
    → rec.resolved ≡ false
    → first_where (open_at rec) (add_failed_file no_fault no_fault rec t).1.rows
      ≡ elim (first_where (open_at rec) t.rows) [
        | some old ↦ some (merge_failure rec old)
        | none ↦ some (record rec { id = suc t.seq })
      ]
add_failed_file-first rec t o =
    rw (add_state rec t) (elim (Option-cases (first_where (open_at rec) t.rows)) [
      | inl e ↦
          let z : count_where (open_at rec) t.rows ≡ 0 = (none-open rec t.rows).1 e in
          rw (z, e)
            (unfold merge_open in
              first-insert rec
                (record t { rows = update_where (open_at rec) (merge_failure rec) t.rows }) o
                (rw (first-merge rec t.rows, e)))
      | inr (old, e) ↦
          let p : ltb 0 (count_where (open_at rec) t.rows) ≡ true =
            ground (arith, (none-open rec t.rows).0) in
          rw (p, e) (unfold merge_open in rw (first-merge rec t.rows, e))
    ])
