-- ===== src/Store/SyncRuns/Laws.antt =====
-- Sync runs by id: what is created is found, and an update changes its own run only.
use ocp_offline.Prelude.{
  ℕ, suc, ◌≡◌, refl, List, [], ◌∷◌, none, some, ok, err, arith, nat_eq, ◌==◌, if◌then◌else◌,
}
use ocp_offline.Store.Models.{SyncRun}
use ocp_offline.Store.Table.{
  Table, no_fault, not_found, first_where, update_where, count_where, has_key, IsKeyed, by_key,
  by_key-insert_row, affected-state, none_above, key-insert_row,
}
use ocp_offline.Store.SyncRuns.{create_sync_run, update_sync_run, get_sync_run, sync_run_row}

-- A created run gets an id that no run had, is found under it, and every other run is as it was.
pub get-create :
    (run : SyncRun) (t : Table SyncRun) (id : ℕ)
    → IsKeyed t
    → (get_sync_run no_fault (suc t.seq) t ≡ err not_found)
      × ((create_sync_run no_fault run t).0 ≡ ok (suc t.seq))
      × (get_sync_run no_fault id (create_sync_run no_fault run t).1 ≡ (
          if suc t.seq == id
          then ok (record run { id = suc t.seq })
          else get_sync_run no_fault id t))
unfolding get_sync_run create_sync_run
get-create run t id h = (
  ground (arith, none_above run t (suc t.seq) h refl),
  ground (arith, key-insert_row run t),
  ground (arith, by_key-insert_row run t id h, key-insert_row run t),
)

update_rows :
    (run : SyncRun) (n : ℕ) (xs : List SyncRun)
    → by_key n (update_where (has_key run.id) (λ old. run) xs) ≡ (
        if run.id == n
        then elim (by_key n xs) [ none ↦ none | some old ↦ some run ]
        else by_key n xs)
unfolding first_where update_where
update_rows run n [] = ground arith
update_rows run n (x ∷ xs) = ground (arith, update_rows run n xs)

update_state :
    (run : SyncRun) (t : Table SyncRun)
    → (update_sync_run no_fault run t).1
      ≡ record t { rows = update_where (has_key run.id) (λ old. run) t.rows }
unfolding update_sync_run
update_state run t = affected-state (count_where (has_key run.id) t.rows) _

-- An update writes the run under its id if there is one, and leaves every other run as it was.
pub get-update :
    (run : SyncRun) (t : Table SyncRun) (id : ℕ)
    → get_sync_run no_fault id (update_sync_run no_fault run t).1 ≡ (
        if run.id == id
        then elim (get_sync_run no_fault id t) [ err e ↦ err e | ok old ↦ ok run ]
        else get_sync_run no_fault id t)
unfolding get_sync_run
get-update run t id = rw (update_state run t) (ground (arith, update_rows run id t.rows))
