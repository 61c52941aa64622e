-- ===== src/Store/Files/Unique.antt =====
-- The file records of internal/store/sqlite.go stay unique by provider and path.
use ocp_offline.Prelude.{
  ℕ, suc, ◌≤◌, ◌≡◌, Bool, false, List, [], ◌∷◌, ◌++◌, arith, nat_eq, text_eq, text_beq_iff, All,
  All-append, keep, inl, inr, Bool-cases,
}
use ocp_offline.Store.Models.{FileRecord}
use ocp_offline.Store.Table.{Table, no_fault, delete_where}
use ocp_offline.Store.Files.{at_path, upsert_file_record}
use ocp_offline.Store.Files.Laws.{NoneAt, UniquePaths, IsFileTable, clashes, replace_new}

NoneAt-keep :
    (a : FileRecord) (p : FileRecord → Bool) (xs : List FileRecord)
    → NoneAt a xs
    → NoneAt a (keep p xs)
NoneAt-keep a p [] h = tt
NoneAt-keep a p (x ∷ xs) h = elim (Bool-cases (p x)) [
  | inl e ↦ rw e (h.0, NoneAt-keep a p xs h.1)
  | inr e ↦ rw e (NoneAt-keep a p xs h.1)
]

UniquePaths-keep :
    (p : FileRecord → Bool) (xs : List FileRecord) → UniquePaths xs → UniquePaths (keep p xs)
UniquePaths-keep p [] h = tt
UniquePaths-keep p (x ∷ xs) h = elim (Bool-cases (p x)) [
  | inl e ↦ rw e (NoneAt-keep x p xs h.0, UniquePaths-keep p xs h.1)
  | inr e ↦ rw e (UniquePaths-keep p xs h.1)
]

given-keep :
    (n : ℕ) (p : FileRecord → Bool) (xs : List FileRecord)
    → All (λ a. a.id ≤ n) xs
    → All (λ a. a.id ≤ suc n) (keep p xs)
given-keep n p [] h = tt
given-keep n p (x ∷ xs) h = elim (Bool-cases (p x)) [
  | inl e ↦ rw e (omega arith, given-keep n p xs h.1)
  | inr e ↦ rw e (given-keep n p xs h.1)
]

-- The rows that are left do not stand under the new record's provider and path.
NoneAt-left :
    (rec : FileRecord) (n : ℕ) (xs : List FileRecord)
    → All (λ a. at_path a.provider a.path rec ≡ false) (delete_where (clashes rec n) xs)
NoneAt-left rec n [] = tt
NoneAt-left rec n (a ∷ xs) = elim (Bool-cases (clashes rec n a)) [
  | inl e ↦ rw e (NoneAt-left rec n xs)
  | inr e ↦ rw e (
    ground (
      arith,
      text_beq_iff a.provider rec.provider,
      text_beq_iff a.path rec.path,
      text_beq_iff rec.provider a.provider,
      text_beq_iff rec.path a.path,
    ),
    NoneAt-left rec n xs,
  )
]

unique_last :
    (rec : FileRecord) (n : ℕ) (xs : List FileRecord)
    → All (λ a. at_path a.provider a.path rec ≡ false) xs
    → UniquePaths xs
    → UniquePaths (xs ++ record rec { id = n } ∷ [])
unique_last rec n [] h u = (tt, tt)
unique_last rec n (x ∷ xs) h u = (
  All-append (λ b. at_path x.provider x.path b ≡ false) xs _ u.0 (h.0, tt),
  unique_last rec n xs h.1 u.1,
)

-- An upsert of a record with no id keeps one record for each provider and path.
pub upsert-IsFileTable :
    (rec : FileRecord) (t : Table FileRecord)
    → IsFileTable t
    → rec.id ≡ 0
    → IsFileTable (upsert_file_record no_fault rec t).1
unfolding upsert_file_record
upsert-IsFileTable rec t h z =
    let n = suc t.seq in
    rw (replace_new rec t z) (record {
      given =
          All-append _ (delete_where (clashes rec n) t.rows) _ (given-keep t.seq _ t.rows h.given)
            (omega arith, tt);
      unique =
          unique_last rec n (delete_where (clashes rec n) t.rows) (NoneAt-left rec n t.rows)
            (UniquePaths-keep _ t.rows h.unique);
    })
