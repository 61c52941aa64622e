-- ===== src/Store/Files/Delete.antt =====
-- DeleteFileRecord of internal/store/sqlite.go.
use ocp_offline.Prelude.{
  ◌≡◌, refl, Text, true, false, ◌&&◌, List, [], ◌∷◌, none, ok, err, arith, nat_eq, text_eq,
  text_beq_iff, ◌==◌, if◌then◌else◌, All, inl, inr, Bool-cases, ◌↔◌,
}
use ocp_offline.Store.Models.{FileRecord}
use ocp_offline.Store.Table.{
  Table, no_fault, not_found, first_where, count_where, delete_where, first_where-delete_other,
  first_where-delete_all, affected-state, affected-result, count-eq-zero,
}
use ocp_offline.Store.Files.{at_path, get_file_record, delete_file_record}

count-found :
    (provider path : Text) (xs : List FileRecord)
    → first_where (at_path provider path) xs ≡ none
    → count_where (at_path provider path) xs ≡ 0
unfolding first_where count_where
count-found provider path [] h = refl
count-found provider path (x ∷ xs) h = ground (arith, count-found provider path xs)

spared :
    (provider path p q : Text) (xs : List FileRecord)
    → (provider == p && path == q) ≡ false
    → All (λ a. at_path p q a ≡ true → at_path provider path a ≡ false) xs
spared provider path p q [] d = tt
spared provider path p q (a ∷ xs) d = (
  (λ e. ground (
    arith,
    text_beq_iff a.provider provider,
    text_beq_iff a.path path,
    text_beq_iff a.provider p,
    text_beq_iff a.path q,
    text_beq_iff provider p,
    text_beq_iff path q,
  )),
  spared provider path p q xs d,
)

taken :
    (provider path p q : Text) (xs : List FileRecord)
    → (provider == p && path == q) ≡ true
    → All (λ a. at_path p q a ≡ true → at_path provider path a ≡ true) xs
taken provider path p q [] d = tt
taken provider path p q (a ∷ xs) d = (
  (λ e. ground (
    arith,
    text_beq_iff a.provider provider,
    text_beq_iff a.path path,
    text_beq_iff a.provider p,
    text_beq_iff a.path q,
    text_beq_iff provider p,
    text_beq_iff path q,
  )),
  taken provider path p q xs d,
)

delete_state :
    (t : Table FileRecord) (provider path : Text)
    → (delete_file_record no_fault provider path t).1
      ≡ record t { rows = delete_where (at_path provider path) t.rows }
unfolding delete_file_record
delete_state t provider path = affected-state (count_where (at_path provider path) t.rows) _

-- A deletion removes the record under its provider and path, and every other one is as it was.
pub get-delete :
    (t : Table FileRecord) (provider path p q : Text)
    → get_file_record no_fault p q (delete_file_record no_fault provider path t).1
      ≡ (if provider == p && path == q then err not_found else get_file_record no_fault p q t)
unfolding get_file_record
get-delete t provider path p q =
    rw (delete_state t provider path) (elim (Bool-cases (provider == p && path == q)) [
      | inl e ↦ ground (
        arith,
        first_where-delete_all (at_path p q) (at_path provider path) t.rows
            (taken provider path p q t.rows e),
      )
      | inr e ↦ ground (
        arith,
        first_where-delete_other (at_path p q) (at_path provider path) t.rows
            (spared provider path p q t.rows e),
      )
    ])

delete_answer :
    (t : Table FileRecord) (provider path : Text)
    → (delete_file_record no_fault provider path t).0
      ≡ (if count_where (at_path provider path) t.rows == 0 then err not_found else ok tt)
unfolding delete_file_record
delete_answer t provider path = affected-result (count_where (at_path provider path) t.rows) _

-- A deletion fails, with `not found`, exactly when a lookup does.
pub delete_iff_get :
    (t : Table FileRecord) (provider path : Text)
    → ((delete_file_record no_fault provider path t).0 ≡ err not_found)
      ↔ (get_file_record no_fault provider path t ≡ err not_found)
unfolding get_file_record
delete_iff_get t provider path = rw (delete_answer t provider path) (
  (λ e. ground (arith, count-eq-zero (at_path provider path) t.rows)),
  (λ e. ground (arith, count-found provider path t.rows)),
)
