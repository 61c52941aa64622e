-- ===== src/Engine/Sync/Scan.antt =====
-- internal/engine/sync.go: ScanLocal, which rebuilds the file records from what is on disk. The walk
-- over the disk, the checksums, the JSON decoder and the points where the context is done are a
-- parameter. The first walk, which only counts, sees the same files. Durations are not modelled.
pub mod Elsewhere
mod Examples
use ocp_offline.Prelude.{
  ℕ, ◌+◌, Text, codes, text_eq, nat_eq, Bool, true, false, not, ◌||◌, List, [], ◌∷◌, ◌++◌, foldl,
  Option, none, some, Result, ok, err, ◌==◌, if◌then◌else◌, is_empty, Map, insert, lookup,
}
use ocp_offline.Safety.Path.{join, rel}
use ocp_offline.Config.{RawValue, text, RawConfig}
use ocp_offline.Store.Models.{FileRecord, ProviderConfig}
use ocp_offline.Store.Table.{Table, Fault, StoreError}
use ocp_offline.Store.Files.{list_file_records, upsert_file_record}
use ocp_offline.Store.Configs.{get_provider_config}
use ocp_offline.Engine.Progress.{
  downloading, complete, failed, SyncTracker, new_sync_tracker, set_phase, set_totals, set_message,
  file_completed,
}
use ocp_offline.Engine.Sync.{decimal}

-- What the walk visits: an entry that cannot be read, a directory, or a file with its size and time.
pub data WalkItem : Type 0 where
  unwalkable a_directory : WalkItem
  a_file : Text → ℕ → ℕ → WalkItem

-- Whether the context is done, and how.
pub data ContextState : Type 0 where
  not_done by_cancel by_deadline : ContextState

pub record ScanEnv : Type 0 where
  pub data_dir : Text
  pub now : ℕ
  pub configs : Table ProviderConfig
  pub on_config : Fault
  pub on_list : Fault
  pub on_upsert : Text → Fault
  pub decode : Text → Option RawConfig
  pub exists : Text → Bool
  pub walk : Text → List WalkItem
  pub context : Text → ContextState
  pub checksum : Text → Option Text

pub record ScanReport : Type 0 where
  pub provider : Text
  pub found : ℕ
  pub new : ℕ
  pub updated : ℕ

pub data ScanError : Type 0 where
  no_data_dir list_failed scan_cancelled scan_failed : ScanError

pub record ScanState : Type 0 where
  pub files : Table FileRecord
  pub tracker : SyncTracker
  pub report : ScanReport

abbrev pub text_of : Option RawValue → Text
text_of (some (text t)) = t
text_of o = []

abbrev pub root_of_config : Text → Option RawConfig → Text
root_of_config data_dir none = data_dir
root_of_config data_dir (some cfg) =
    let out = text_of (lookup (codes "output_dir") cfg) in
    if is_empty out then data_dir else join data_dir out

abbrev pub root_of : ScanEnv → Result StoreError ProviderConfig → Text
root_of env (err e) = env.data_dir
root_of env (ok pc) = root_of_config env.data_dir (env.decode pc.config_json)

-- The directory to scan: the provider's output_dir, or else the data directory.
unfoldable pub scan_root : ScanEnv → Text → Text
scan_root env name = root_of env (get_provider_config env.on_config name env.configs)

unfoldable pub existing_map : List FileRecord → Map FileRecord
existing_map recs = foldl (λ m rec. insert rec.path rec m) [] recs

abbrev pub scan_record : ScanEnv → Text → Text → ℕ → ℕ → Text → FileRecord
scan_record env name path size modified sum = record {
  id = 0;
  provider = name;
  path = path;
  size = size;
  sha256 = sum;
  last_modified = modified;
  last_verified = env.now;
  sync_run_id = 0;
}

-- A file counts as found, and as new or updated against the records from before.
abbrev pub count_file : Option FileRecord → Text → ℕ → ScanReport → ScanReport
count_file none sum size r = record r { found = r.found + 1; new = r.new + 1 }
count_file (some rec) sum size r =
    if not (rec.sha256 == sum) || not (rec.size == size)
    then record r { found = r.found + 1; updated = r.updated + 1 }
    else record r { found = r.found + 1 }

-- A file with its path relative to the data directory and its checksum, if it has them.
unfoldable pub scan_file :
    ScanEnv → Text → Map FileRecord → ℕ → ℕ → Option Text → Option Text → ScanState → ScanState
scan_file env name existing size modified none sum st = st
scan_file env name existing size modified (some path) none st = st
scan_file env name existing size modified (some path) (some sum) st = record {
  files =
      (upsert_file_record (env.on_upsert path) (scan_record env name path size modified sum)
        st.files).1;
  tracker = file_completed path size st.tracker;
  report = count_file (lookup path existing) sum size st.report;
}

-- The second walk: the state that it leaves, and how the context ended it.
unfoldable pub scan_items :
    ScanEnv → Text → Map FileRecord → List WalkItem → ScanState → ContextState × ScanState
scan_items env name existing [] st = (not_done, st)
scan_items env name existing (unwalkable ∷ items) st = scan_items env name existing items st
scan_items env name existing (a_directory ∷ items) st = scan_items env name existing items st
scan_items env name existing (a_file path size modified ∷ items) st =
    let rest =
      scan_items env name existing items (
        scan_file env name existing size modified (rel env.data_dir path) (env.checksum path) st) in
    elim (env.context path) [
      | not_done ↦ rest
      | by_cancel ↦ (by_cancel, st)
      | by_deadline ↦ (by_deadline, st)
    ]

abbrev pub count_items : List WalkItem → ℕ
count_items [] = 0
count_items (a_file path size modified ∷ items) = 1 + count_items items
count_items (item ∷ items) = count_items items

abbrev pub ScanOutcome : Type 0
ScanOutcome = Option ScanReport × Option ScanError × ScanState

-- The end of the scan.
unfoldable pub end_scan : ContextState × ScanState → ScanOutcome
end_scan (by_deadline, st) = (none, some scan_failed, st)
end_scan (by_cancel, st) = (
  some st.report,
  some scan_cancelled,
  record st { tracker = set_message (codes "Scan cancelled") (set_phase failed st.tracker) },
)
end_scan (not_done, st) = (
  some st.report,
  none,
  record st {
    tracker =
        set_message
          (codes "Scan complete: "
            ++ (decimal st.report.found
                ++ (codes " files found, "
                    ++ (decimal st.report.new
                        ++ (codes " new, " ++ (decimal st.report.updated ++ codes " updated"))))))
          (set_phase complete st.tracker);
  },
)

-- From the records from before on.
unfoldable pub scan_known :
    ScanEnv → Text → Text → Result StoreError (List FileRecord) → ScanState → ScanOutcome
scan_known env name root (err e) st = (none, some list_failed, st)
scan_known env name root (ok recs) st =
    let items = env.walk root in
    end_scan (
      scan_items env name (existing_map recs) items
        (record st { tracker = set_totals (count_items items) 0 st.tracker }))

unfoldable pub scan_at : ScanEnv → Text → Text → ScanState → ScanOutcome
scan_at env name root st =
    if not (env.exists root)
    then (
      some st.report,
      none,
      record st {
        tracker =
            set_message (codes "Scan complete: directory " ++ (root ++ codes " does not exist yet"))
              (set_phase complete st.tracker);
      },
    )
    else scan_known env name root (list_file_records env.on_list name st.files) st

-- ScanLocal
unfoldable pub scan_local : ScanEnv → Text → Table FileRecord → ScanOutcome
scan_local env name files =
    let st : ScanState = record {
      files = files;
      tracker =
          set_phase downloading (
            set_message (codes "Scanning local files for " ++ name)
              (new_sync_tracker name env.now));
      report = record { provider = name; found = 0; new = 0; updated = 0 };
    } in
    if is_empty env.data_dir
    then (none, some no_data_dir, st)
    else scan_at env name (scan_root env name) st
