-- ===== src/Engine/Sync/Scan/Examples.antt =====
-- The scan of internal/engine/sync.go at concrete inputs.
use ocp_offline.Prelude.{
  ◌≡◌, ◌≢◌, refl, ok, Text, All, codes, text_eq, text_beq, nat_eq, true, [], ◌∷◌, none, some,
  lookup, has_prefix, arith, sort_by,
}
use ocp_offline.Safety.Path.{is_abs, rel, rel_elements, clean}
use ocp_offline.Safety.Path.Resolve.{parse, render}
use ocp_offline.Safety.Path.Split.{split, join_with}
use ocp_offline.Safety.Path.Confined.{IsName}
use ocp_offline.Store.Models.{FileRecord}
use ocp_offline.Store.Table.{Table, empty, no_fault}
use ocp_offline.Store.Configs.{get_provider_config}
use ocp_offline.Store.Files.{list_file_records, get_file_record}
use ocp_offline.Engine.Export.{entry_of}
use ocp_offline.Engine.Progress.{new_sync_tracker}
use ocp_offline.Engine.Sync.Scan.{
  ScanEnv, ScanState, a_file, not_done, scan_local, scan_at, scan_known, scan_root, scan_items,
  scan_file, existing_map, end_scan,
}
use ocp_offline.Engine.Sync.Scan.Elsewhere.{
  file_below, recorded_path, scanned_files, scanned_elsewhere,
}

abbrev scan_env : ScanEnv
scan_env = record {
  data_dir = codes "/d";
  now = 7;
  configs = empty;
  on_config = no_fault;
  on_list = no_fault;
  on_upsert = λ p. no_fault;
  decode = λ t. none;
  exists = λ p. true;
  walk = λ root. a_file (codes "/d/p/x") 2 5 ∷ [];
  context = λ p. not_done;
  checksum = λ p. some (codes "xx");
}

-- The scan of the file `/d/p/x`.
scanned :
    (scan_local scan_env (codes "p") empty).0
    ≡ some (record { provider = codes "p"; found = 1; new = 1; updated = 0 })
unfolding scan_local scan_at scan_known scan_root get_provider_config list_file_records scan_items
    scan_file existing_map end_scan is_abs rel rel_elements clean parse render text_beq split
    has_prefix join_with lookup sort_by
scanned = refl

p_IsName : IsName (codes "p")
p_IsName = record {
  nonempty = λ h. cc h;
  not_dot = λ h. cc h;
  not_dotdot = λ h. cc h;
  lacks = (omega arith, tt);
}

x_IsName : IsName (codes "x")
x_IsName = record {
  nonempty = λ h. cc h;
  not_dot = λ h. cc h;
  not_dotdot = λ h. cc h;
  lacks = (omega arith, tt);
}

d_rooted : is_abs (codes "/d") ≡ true
unfolding is_abs has_prefix
d_rooted = refl

abbrev scan_start : ScanState
scan_start = record {
  files = empty;
  tracker = new_sync_tracker (codes "p") 7;
  report = record { provider = codes "p"; found = 0; new = 0; updated = 0 };
}

x_names : All IsName (codes "p" ∷ codes "x" ∷ [])
x_names = (p_IsName, (x_IsName, tt))

-- The file `/d/p/x`, scanned.
abbrev x_file : Text
x_file = file_below scan_env (codes "p") (codes "p") (codes "x" ∷ []) d_rooted p_IsName x_names

abbrev x_path : Text
x_path = recorded_path scan_env (codes "p") (codes "p") (codes "x" ∷ []) d_rooted p_IsName x_names

abbrev x_scanned : Table FileRecord
x_scanned =
    scanned_files scan_env (codes "p") (codes "p") (codes "x" ∷ []) d_rooted p_IsName x_names [] 2 5
      (codes "xx") scan_start

scanned_elsewhere_example :
    (rec : FileRecord) × (get_file_record no_fault (codes "p") x_path x_scanned ≡ ok rec)
    × (rec.size ≡ 2)
    × (rec.sha256 ≡ codes "xx")
    × ((entry_of (codes "/d") (codes "p") rec).abs_path ≢ x_file)
scanned_elsewhere_example =
    scanned_elsewhere scan_env (codes "p") (codes "p") (codes "x" ∷ []) d_rooted p_IsName x_names []
      2 5 (codes "xx") scan_start (record { given = tt; unique = tt }) refl refl refl
