-- ===== src/Engine/Import.antt =====
-- internal/engine/import.go: a transfer medium is verified and extracted below the data directory.
-- The medium, the readers of JSON, zstd and tar, and the local file system are parameters, a
-- `Source` and a `LocalFs`. The logger and the duration are not modelled.
pub mod Base
pub mod Validation
pub mod Extraction
pub mod Archive
pub mod Confined
pub mod Guards
pub mod Verified
pub mod Reach
pub mod Skipped
pub mod Repos
mod Examples
use ocp_offline.Prelude.{
  ℕ, zero, suc, ◌+◌, Text, codes, text_eq, nat_eq, Bool, true, false, not, ◌&&◌, List, [], ◌∷◌,
  ◌++◌, Option, none, some, Result, ok, err, ◌==◌, ltb, if◌then◌else◌, length, Map, insert, lookup,
}
use ocp_offline.Safety.Path.{PathError, join, safe_join_under}
use ocp_offline.Store.Models.{FileRecord, Transfer, TransferArchive}
use ocp_offline.Store.Table.{Table, Fault, StoreError}
use ocp_offline.Store.Files.{upsert_file_record}
use ocp_offline.Store.Transfers.{
  create_transfer, update_transfer, create_transfer_archive, is_archive_validated,
}
use ocp_offline.Engine.Export.{ArchiveInfo, ManifestFile, TransferManifest, emit_digits}
use ocp_offline.Engine.Import.Archive.{TarItem, LocalFs, Disk, Extracted, extract_items}
pub use ocp_offline.Engine.Import.Base.{
  ImportOptions, ImportReport, ImportError, Source, Faults, Env, State, empty_report, ended,
  no_manifest, cancelled, archive_not_found, failed_validation, failed_extraction,
}
unfoldable pub use ocp_offline.Engine.Import.Base.{save_transfer}
unfoldable pub use ocp_offline.Engine.Import.Validation.{
  all_present, start_transfer, count_valid, count_failed, count_skipped, compare_hash, check_hash,
  already_valid, validate_one, validate_all,
}
pub use ocp_offline.Engine.Import.Extraction.{
  extracted_state, failed_state, rebuild_repos, completed,
}
unfoldable pub use ocp_offline.Engine.Import.Extraction.{
  is_member, extract_opened, extract_archive, extract_all, record_at, record_file, record_files,
  after_extraction,
}

abbrev pub verified : Env → State → State
verified env st =
    save_transfer env
      (λ t. record t {
        status = codes "completed";
        archive_count = st.report.archives_validated;
        end_time = env.now;
      })
      st

-- After the validation: stop on failures, stop if only that was asked for, or extract and record.
unfoldable pub finish_import :
    Env → ImportOptions → TransferManifest → State → Result ImportError ImportReport × State
finish_import env opts manifest st =
    let n = st.report.archives_failed in
    let message = emit_digits n n [] ++ codes " archive(s) failed validation" in
    let stopped = save_transfer env (ended env (codes "failed") message) st in
    if ltb 0 n
    then (err (failed_validation n), stopped)
    else if opts.verify_only
    then (ok st.report, verified env st)
    else after_extraction env manifest (extract_all env manifest.archives st)

-- Import, from the end of the validation loop.
unfoldable pub after_validation :
    Env
    → ImportOptions
    → TransferManifest
    → Result ImportError (Unit {0}) × State
    → Result ImportError ImportReport × State
after_validation env opts manifest (err e, st) = (err e, st)
after_validation env opts manifest (ok u, st) = finish_import env opts manifest st

-- Import, from the test that the archives are present.
unfoldable pub import_present :
    Env
    → ImportOptions
    → TransferManifest
    → Option Text
    → State
    → Result ImportError ImportReport × State
import_present env opts manifest (some missing) st = (err (archive_not_found missing), st)
import_present env opts manifest none st =
    after_validation env opts manifest
      (validate_all env opts manifest.archives (start_transfer env opts st))

-- Import, from the manifest that was read.
unfoldable pub import_read :
    Env → ImportOptions → Option TransferManifest → State → Result ImportError ImportReport × State
import_read env opts none st = (err no_manifest, st)
import_read env opts (some manifest) st =
    import_present env opts manifest (all_present env.source manifest.archives) st

-- Import
unfoldable pub import_transfer :
    Env → ImportOptions → State → Result ImportError ImportReport × State
import_transfer env opts st = import_read env opts env.source.manifest st
