-- ===== src/Engine/Progress.antt =====
-- internal/engine/progress.go: the tracker of a running sync. Every method holds the lock from its
-- first read to its last write, so a run of workers is the list of their calls in the order of the
-- lock. Times are milliseconds; the percentage, the speed and the texts made of durations, which are
-- computed with floats, are not modelled.
pub mod Laws
use ocp_offline.Prelude.{
  ℕ, ◌+◌, Text, codes, Bool, true, false, not, ◌&&◌, List, [], ◌∷◌, map, Option, none, some, ltb,
  if◌then◌else◌, keep, take, sum_by, sort_by, text_lt, Map, insert, lookup,
}

pub data SyncPhase : Type 0 where
  planning downloading complete failed cancelled : SyncPhase

pub data FileStatus : Type 0 where
  file_done file_failed : FileStatus

pub record FileEvent : Type 0 where
  pub path : Text
  pub status : FileStatus
  pub error : Text
  pub size : ℕ

pub record FileProgress : Type 0 where
  pub path : Text
  pub bytes_downloaded : ℕ
  pub total_bytes : ℕ
  pub is_done : Bool
  pub is_failed : Bool

-- `notified` counts the notification channels that were closed.
pub record SyncTracker : Type 0 where
  pub provider : Text
  pub phase : SyncPhase
  pub total_files : ℕ
  pub completed_files : ℕ
  pub failed_files : ℕ
  pub skipped_files : ℕ
  pub total_bytes : ℕ
  pub bytes_downloaded : ℕ
  pub total_retries : ℕ
  pub start_time : ℕ
  pub message : Text
  pub files : Map FileProgress
  pub recent_events : List FileEvent
  pub notified : ℕ
  pub last_file_update : Map ℕ

-- NewSyncTracker
unfoldable pub new_sync_tracker : Text → ℕ → SyncTracker
new_sync_tracker provider now = record {
  provider = provider;
  phase = planning;
  total_files = 0;
  completed_files = 0;
  failed_files = 0;
  skipped_files = 0;
  total_bytes = 0;
  bytes_downloaded = 0;
  total_retries = 0;
  start_time = now;
  message = [];
  files = [];
  recent_events = [];
  notified = 0;
  last_file_update = [];
}

abbrev pub signal : SyncTracker → SyncTracker
signal t = record t { notified = t.notified + 1 }

unfoldable pub set_phase : SyncPhase → SyncTracker → SyncTracker
set_phase phase t = signal (record t { phase = phase })

unfoldable pub set_totals : ℕ → ℕ → SyncTracker → SyncTracker
set_totals files bytes t = signal (record t { total_files = files; total_bytes = bytes })

unfoldable pub set_message : Text → SyncTracker → SyncTracker
set_message message t = signal (record t { message = message })

-- The entry of a path, a fresh one if it has none yet.
unfoldable pub progress_of : Text → Map FileProgress → FileProgress
progress_of path files = elim (lookup path files) [
  | some fp ↦ fp
  | none ↦ record {
    path = path;
    bytes_downloaded = 0;
    total_bytes = 0;
    is_done = false;
    is_failed = false;
  }
]

abbrev pub sum_bytes : Map FileProgress → ℕ
sum_bytes = sum_by (λ e. e.1.bytes_downloaded)

-- A throttled update comes less than 250 ms after the last one for its file.
unfoldable pub is_throttled : ℕ → Text → SyncTracker → Bool
is_throttled now path t = elim (lookup path t.last_file_update) [
  | none ↦ false
  | some last ↦ ltb now (last + 250)
]

unfoldable pub update_file_progress : ℕ → Text → ℕ → ℕ → SyncTracker → SyncTracker
update_file_progress now path bytes total t =
    let files =
      insert path
        (record (progress_of path t.files) { bytes_downloaded = bytes; total_bytes = total })
        t.files in
    if is_throttled now path t
    then t
    else signal (record t {
      last_file_update = insert path now t.last_file_update;
      files = files;
      bytes_downloaded = sum_bytes files;
    })

abbrev pub done_event : Text → ℕ → FileEvent
done_event path bytes = record { path = path; status = file_done; error = []; size = bytes }

abbrev pub failed_event : Text → Text → FileEvent
failed_event path message = record { path = path; status = file_failed; error = message; size = 0 }

abbrev pub add_recent_event : FileEvent → List FileEvent → List FileEvent
add_recent_event e events = take 20 (e ∷ events)

unfoldable pub file_completed : Text → ℕ → SyncTracker → SyncTracker
file_completed path bytes t =
    let files =
      insert path (record (progress_of path t.files) { is_done = true; bytes_downloaded = bytes })
        t.files in
    signal (record t {
      files = files;
      completed_files = t.completed_files + 1;
      bytes_downloaded = sum_bytes files;
      recent_events = add_recent_event (done_event path bytes) t.recent_events;
    })

unfoldable pub file_failed_with : Text → Text → SyncTracker → SyncTracker
file_failed_with path message t = signal (record t {
  files = insert path (record (progress_of path t.files) { is_failed = true }) t.files;
  failed_files = t.failed_files + 1;
  recent_events = add_recent_event (failed_event path message) t.recent_events;
})

unfoldable pub file_skipped : SyncTracker → SyncTracker
file_skipped t = signal (record t { skipped_files = t.skipped_files + 1 })

unfoldable pub set_skipped_files : ℕ → SyncTracker → SyncTracker
set_skipped_files count t = signal (record t { skipped_files = count })

unfoldable pub add_retries : ℕ → SyncTracker → SyncTracker
add_retries count t = signal (record t { total_retries = t.total_retries + count })

-- The files of a snapshot: those in work, by path.
unfoldable pub current_files : SyncTracker → List FileProgress
current_files t =
    sort_by (λ (a b : FileProgress). text_lt a.path b.path)
      (keep (λ f. not f.is_done && not f.is_failed) (map (λ e. e.1) t.files))

-- A call of a method.
pub data TrackerCall : Type 0 where
  phase_call : SyncPhase → TrackerCall
  totals_call : ℕ → ℕ → TrackerCall
  message_call : Text → TrackerCall
  update_call : ℕ → Text → ℕ → ℕ → TrackerCall
  completed_call : Text → ℕ → TrackerCall
  failed_call : Text → Text → TrackerCall
  skipped_call : TrackerCall
  skip_count_call : ℕ → TrackerCall
  retries_call : ℕ → TrackerCall

unfoldable pub perform : TrackerCall → SyncTracker → SyncTracker
perform (phase_call phase) t = set_phase phase t
perform (totals_call files bytes) t = set_totals files bytes t
perform (message_call message) t = set_message message t
perform (update_call now path bytes total) t = update_file_progress now path bytes total t
perform (completed_call path bytes) t = file_completed path bytes t
perform (failed_call path message) t = file_failed_with path message t
perform skipped_call t = file_skipped t
perform (skip_count_call count) t = set_skipped_files count t
perform (retries_call count) t = add_retries count t

-- The calls in the order of the lock.
unfoldable pub perform_all : List TrackerCall → SyncTracker → SyncTracker
perform_all [] t = t
perform_all (c ∷ cs) t = perform_all cs (perform c t)
