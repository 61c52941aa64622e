-- ===== src/Engine/Import/Extraction.antt =====
-- The loop of `Import` in internal/engine/import.go over the archives to extract, and the records of
-- the inventory.
use ocp_offline.Prelude.{
  ◌+◌, Text, codes, text_eq, nat_eq, Bool, true, false, List, [], ◌∷◌, ◌++◌, Option, none, some,
  Result, ok, err, ◌==◌, if◌then◌else◌, foldl,
}
use ocp_offline.Safety.Path.{PathError, join, safe_join_under}
use ocp_offline.Store.Files.{upsert_file_record}
use ocp_offline.Engine.Export.{ArchiveInfo, ManifestFile, TransferManifest}
use ocp_offline.Engine.Import.Archive.{TarItem, Disk, Extracted, extract_items}
use ocp_offline.Engine.Import.Repos.{collect_repo_dirs}
use ocp_offline.Engine.Import.Base.{
  ImportReport, ImportError, Env, State, save_transfer, ended, cancelled, failed_extraction,
}

unfoldable pub is_member : Text → List Text → Bool
is_member s [] = false
is_member s (t ∷ ts) = if s == t then true else is_member s ts

-- The extraction of what was opened.
unfoldable pub extract_opened : Env → Option (List TarItem) → Disk → Extracted
extract_opened env none disk = record { count = 0; bytes = 0; failed = true; disk = disk }
extract_opened env (some items) disk =
    extract_items env.fs env.cwd env.data_dir items
      (record { count = 0; bytes = 0; failed = false; disk = disk })

-- extractArchive, on an archive that may not open. An error is reported by the archive's name.
unfoldable pub extract_archive : Env → Text → Disk → Extracted
extract_archive env name disk = extract_opened env (env.source.items name) disk

abbrev pub extracted_state : State → Extracted → State
extracted_state st x = record st {
  disk = x.disk;
  report = record (st.report) {
    files_extracted = st.report.files_extracted + x.count;
    total_size = st.report.total_size + x.bytes;
  };
}

abbrev pub failed_state : Env → Text → State → Extracted → State
failed_state env name st x = save_transfer env (ended env (codes "failed") name) (record st {
  disk = x.disk;
  report = record (st.report) { errors = st.report.errors ++ name ∷ [] };
})

unfoldable pub extract_all : Env → List ArchiveInfo → State → Result ImportError (Unit {0}) × State
extract_all env [] st = (ok tt, st)
extract_all env (a ∷ as') st =
    let x = extract_archive env a.name st.disk in
    let skip = extract_all env as' st in
    let rest = extract_all env as' (extracted_state st x) in
    if env.source.done_extracting a.name
    then (err cancelled, st)
    else if is_member a.name st.skipped
    then skip
    else if x.failed
    then (err (failed_extraction a.name), failed_state env a.name st x)
    else rest

-- The record of one inventory entry, if its path is safe and exists on disk.
unfoldable pub record_at : Env → ManifestFile → Result PathError Text → State → State
record_at env f (err e) st = st
record_at env f (ok abs_path) st = if env.absent abs_path st.disk then st else record st {
  files =
      (upsert_file_record (env.faults.on_upsert f.path)
        (record {
          id = 0;
          provider = f.provider;
          path = f.path;
          size = f.size;
          sha256 = f.sha256;
          last_modified = env.now;
          last_verified = env.now;
          sync_run_id = 0;
        })
        st.files).1;
}

unfoldable pub record_file : Env → ManifestFile → State → State
record_file env f st =
    record_at env f (safe_join_under env.cwd env.data_dir (join f.provider f.path)) st

unfoldable pub record_files : Env → List ManifestFile → State → State
record_files env [] st = st
record_files env (f ∷ fs) st = record_files env fs (record_file env f st)

abbrev pub completed : Env → State → State
completed env st =
    save_transfer env
      (λ t. record t {
        status = codes "completed";
        archive_count = st.report.archives_validated;
        total_size = st.report.total_size;
        end_time = env.now;
      })
      st

-- The loop over the directories for createrepo_c
abbrev pub rebuild_repos : Env → TransferManifest → State → State
rebuild_repos env manifest st = record st {
  disk =
      foldl (λ d dir. env.createrepo dir d) st.disk
        (collect_repo_dirs env.cwd env.data_dir manifest);
}

-- After the extraction loop: createrepo_c, the records of the inventory, and the end of the transfer.
unfoldable pub after_extraction :
    Env
    → TransferManifest
    → Result ImportError (Unit {0}) × State
    → Result ImportError ImportReport × State
after_extraction env manifest (err e, st) = (err e, st)
after_extraction env manifest (ok u, st) =
    let st' = record_files env manifest.file_inventory (rebuild_repos env manifest st) in
    (ok st'.report, completed env st')
