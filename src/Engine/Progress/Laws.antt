-- ===== src/Engine/Progress/Laws.antt =====
-- What a tracker shows after any calls, against the log of all that was reported to it.
use ocp_offline.Prelude.{
  ℕ, zero, suc, ◌≡◌, refl, sym, ap, ◌∙◌, Text, text_eq, Bool, true, false, List, [], ◌∷◌,
  if◌then◌else◌, take, sum_by, Map, insert, lookup, arith, ◌==◌,
}
use ocp_offline.Engine.Progress.{
  FileStatus, file_done, file_failed, FileEvent, done_event, failed_event, FileProgress,
  SyncTracker, new_sync_tracker, set_phase, set_totals, set_message, progress_of, sum_bytes,
  update_file_progress, add_recent_event, file_completed, file_failed_with, file_skipped,
  set_skipped_files, add_retries, TrackerCall, phase_call, totals_call, message_call, update_call,
  completed_call, failed_call, skipped_call, skip_count_call, retries_call, perform, perform_all,
}

-- The log of the files that were reported completed or failed, newest first, with no bound.
abbrev pub log_call : TrackerCall → List FileEvent → List FileEvent
log_call (completed_call path bytes) log = done_event path bytes ∷ log
log_call (failed_call path message) log = failed_event path message ∷ log
log_call c log = log

abbrev pub log_calls : List TrackerCall → List FileEvent → List FileEvent
log_calls [] log = log
log_calls (c ∷ cs) log = log_calls cs (log_call c log)

abbrev pub is_file_done : FileStatus → Bool
is_file_done file_done = true
is_file_done file_failed = false

abbrev pub count_status : Bool → List FileEvent → ℕ
count_status done =
    sum_by (λ e. if is_file_done e.status then (if done then 1 else 0) else (if done then 0 else 1))

-- What the tracker keeps of the log.
pub record Follows (log : List FileEvent) (t : SyncTracker) : Type 0 where
  pub recent : t.recent_events ≡ take 20 log
  pub completed : t.completed_files ≡ count_status true log
  pub failed : t.failed_files ≡ count_status false log
  pub bytes : t.bytes_downloaded ≡ sum_bytes t.files

module _ {A : Type 0} where
  pub take-take :
      (n : ℕ) (x : A) (xs : List A) → take (suc n) (x ∷ take (suc n) xs) ≡ take (suc n) (x ∷ xs)
  take-take n x xs = ap (λ ys. x ∷ ys) (take_short n xs)
    where
      take_short : (n : ℕ) (xs : List A) → take n (take (suc n) xs) ≡ take n xs
      take_short zero xs = refl
      take_short (suc n) [] = refl
      take_short (suc n) (y ∷ ys) = ap (λ zs. y ∷ zs) (take_short n ys)

progress_of-cons :
    (path at : Text) (old : FileProgress) (files : Map FileProgress)
    → progress_of path ((at, old) ∷ files) ≡ (if at == path then old else progress_of path files)
unfolding progress_of lookup
progress_of-cons path at old files = ground arith

-- A file that only changes its state leaves the sum of the bytes.
sum-insert_same :
    (path : Text) (fp : FileProgress) (files : Map FileProgress)
    → fp.bytes_downloaded ≡ (progress_of path files).bytes_downloaded
    → sum_bytes (insert path fp files) ≡ sum_bytes files
unfolding insert
sum-insert_same path fp [] h = unfold progress_of lookup in omega arith
sum-insert_same path fp ((at, old) ∷ files) h =
    ground (arith, progress_of-cons path at old files, sum-insert_same path fp files)

perform-Follows :
    (c : TrackerCall) (log : List FileEvent) (t : SyncTracker)
    → Follows log t
    → Follows (log_call c log) (perform c t)
unfolding perform set_phase set_totals set_message file_skipped set_skipped_files add_retries
    update_file_progress file_completed file_failed_with
perform-Follows (phase_call phase) log t f = ground arith
perform-Follows (totals_call files bytes) log t f = ground arith
perform-Follows (message_call message) log t f = ground arith
perform-Follows (update_call now path bytes total) log t f = ground arith
perform-Follows (completed_call path bytes) log t f = record {
  recent =
      ap (λ es. add_recent_event (done_event path bytes) es) f.recent
      ∙ take-take 19 (done_event path bytes) log;
  completed = omega (arith, f.completed);
  failed = omega (arith, f.failed);
  bytes = refl;
}
perform-Follows (failed_call path message) log t f = record {
  recent =
      ap (λ es. add_recent_event (failed_event path message) es) f.recent
      ∙ take-take 19 (failed_event path message) log;
  completed = omega (arith, f.completed);
  failed = omega (arith, f.failed);
  bytes = f.bytes ∙ sym (sum-insert_same path _ t.files refl);
}
perform-Follows skipped_call log t f = ground arith
perform-Follows (skip_count_call count) log t f = ground arith
perform-Follows (retries_call count) log t f = ground arith

perform_all-Follows :
    (cs : List TrackerCall) (log : List FileEvent) (t : SyncTracker)
    → Follows log t
    → Follows (log_calls cs log) (perform_all cs t)
unfolding perform_all
perform_all-Follows [] log t f = f
perform_all-Follows (c ∷ cs) log t f =
    perform_all-Follows cs (log_call c log) (perform c t) (perform-Follows c log t f)

-- A tracker refines the log of the files that were reported to it, whatever the order of the calls:
-- it shows the twenty newest events, as many completed and failed files as the log has, and as many
-- bytes as its files have together.
pub run-Follows :
    (provider : Text) (now : ℕ) (cs : List TrackerCall)
    → Follows (log_calls cs []) (perform_all cs (new_sync_tracker provider now))
unfolding new_sync_tracker
run-Follows provider now cs =
    perform_all-Follows cs [] (new_sync_tracker provider now) (ground arith)
