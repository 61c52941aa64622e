-- ===== src/Store/Files/Laws.antt =====
-- The file records as a map from provider and path, and its invariant.
use ocp_offline.Prelude.{
  ℕ, suc, ◌≤◌, ◌≡◌, Text, Bool, true, false, ◌||◌, List, [], ◌∷◌, ◌++◌, some, ok, arith, nat_eq,
  text_eq, text_beq_iff, ◌==◌, if◌then◌else◌, All, length, keep, sum_by, sum-sort_by,
  length-sort_by, text_lt, inl, inr, Bool-cases,
}
use ocp_offline.Store.Models.{FileRecord}
use ocp_offline.Store.Table.{
  Table, no_fault, first_where, delete_where, first_where-append, first_where-delete_other,
  first_where-delete_all, count_where-keep,
}
use ocp_offline.Store.Files.{
  at_path, of_provider, chosen_key, greater, replace_file, upsert_file_record, get_file_record,
  list_file_records, count_file_records, sum_file_size,
}

-- The count of a provider's records is the length of their list, and the sum of the sizes is the
-- sum over that list.
pub count-list :
    (provider : Text) (t : Table FileRecord) {l : List FileRecord}
    → list_file_records no_fault provider t ≡ ok l
    → (count_file_records no_fault provider t ≡ ok (length l))
      × (sum_file_size no_fault provider t ≡ ok (sum_by (λ r. r.size) l))
unfolding list_file_records count_file_records sum_file_size
count-list provider t {l} h =
    let mine = keep (of_provider provider) t.rows in
    ground (
      arith,
      count_where-keep (of_provider provider) t.rows,
      length-sort_by (λ (a b : FileRecord). text_lt a.path b.path) mine,
      sum-sort_by (λ (a b : FileRecord). text_lt a.path b.path) (λ r. r.size) mine,
    )

-- No two records have one provider and path, and every id was given by the table.
abbrev pub NoneAt : FileRecord → List FileRecord → Type 0
NoneAt a = All (λ b. at_path a.provider a.path b ≡ false)

abbrev pub UniquePaths : List FileRecord → Type 0
UniquePaths [] = Unit
UniquePaths (a ∷ as') = NoneAt a as' × UniquePaths as'

pub record IsFileTable (t : Table FileRecord) : Type 0 where
  pub given : All (λ a. a.id ≤ t.seq) t.rows
  pub unique : UniquePaths t.rows

-- The rows that an upsert of a record with no id takes away.
abbrev pub clashes : FileRecord → ℕ → FileRecord → Bool
clashes rec n r = r.id == n || at_path rec.provider rec.path r

pub replace_new :
    (rec : FileRecord) (t : Table FileRecord)
    → rec.id ≡ 0
    → replace_file rec t ≡ (
      suc t.seq,
      record {
        rows = delete_where (clashes rec (suc t.seq)) t.rows ++ record rec { id = suc t.seq } ∷ [];
        seq = suc t.seq;
      },
    )
unfolding replace_file
replace_new rec t z =
    let n : chosen_key t.seq rec.id ≡ suc t.seq = ground arith in
    let m : greater t.seq (suc t.seq) ≡ suc t.seq = ground arith in rw (n, m)

spares_others :
    (rec : FileRecord) (n : ℕ) (provider path : Text) (xs : List FileRecord)
    → at_path provider path rec ≡ false
    → All (λ a. a.id ≤ n) xs
    → All (λ a. at_path provider path a ≡ true → clashes rec (suc n) a ≡ false) xs
spares_others rec n provider path [] d h = tt
spares_others rec n provider path (a ∷ xs) d h = (
  (λ e. ground (
    arith,
    text_beq_iff a.provider provider,
    text_beq_iff a.path path,
    text_beq_iff a.provider rec.provider,
    text_beq_iff a.path rec.path,
    text_beq_iff rec.provider provider,
    text_beq_iff rec.path path,
  )),
  spares_others rec n provider path xs d h.1,
)

takes_old :
    (rec : FileRecord) (n : ℕ) (provider path : Text) (xs : List FileRecord)
    → at_path provider path rec ≡ true
    → All (λ a. at_path provider path a ≡ true → clashes rec n a ≡ true) xs
takes_old rec n provider path [] d = tt
takes_old rec n provider path (a ∷ xs) d = (
  (λ e. ground (
    arith,
    text_beq_iff a.provider provider,
    text_beq_iff a.path path,
    text_beq_iff a.provider rec.provider,
    text_beq_iff a.path rec.path,
    text_beq_iff rec.provider provider,
    text_beq_iff rec.path path,
  )),
  takes_old rec n provider path xs d,
)

first-replaced :
    (rec : FileRecord) (t : Table FileRecord) (provider path : Text)
    → IsFileTable t
    → first_where
        (at_path provider path)
        (delete_where (clashes rec (suc t.seq)) t.rows ++ record rec { id = suc t.seq } ∷ [])
      ≡ (if at_path provider path rec
          then some (record rec { id = suc t.seq })
          else first_where (at_path provider path) t.rows)
first-replaced rec t provider path h =
    rw first_where-append (elim (Bool-cases (at_path provider path rec)) [
      | inl e ↦
          rw
            (
              first_where-delete_all (at_path provider path) (clashes rec (suc t.seq)) t.rows
                  (takes_old rec (suc t.seq) provider path t.rows e),
              e,
            )
            (unfold first_where in ground arith)
      | inr e ↦
          rw
            (
              first_where-delete_other (at_path provider path) (clashes rec (suc t.seq)) t.rows
                  (spares_others rec t.seq provider path t.rows e h.given),
              e,
            )
            (unfold first_where in ground arith)
    ])

-- What a lookup shows after an upsert of a record with no id: the record under its provider and
-- path, and everything else as it was.
pub get-upsert :
    (rec : FileRecord) (t : Table FileRecord) (provider path : Text)
    → IsFileTable t
    → rec.id ≡ 0
    → get_file_record no_fault provider path (upsert_file_record no_fault rec t).1 ≡ (
        if at_path provider path rec
        then ok (record rec { id = suc t.seq })
        else get_file_record no_fault provider path t)
unfolding get_file_record upsert_file_record
get-upsert rec t provider path h z =
    rw (replace_new rec t z) (ground (arith, first-replaced rec t provider path h))
