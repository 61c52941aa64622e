-- ===== src/Engine/Import/Validation.antt =====
-- The first loop of `Import` in internal/engine/import.go: the archives' hashes, which the store
-- records. The error texts are the archives' names.
use ocp_offline.Prelude.{
  ◌+◌, Text, codes, text_eq, nat_eq, Bool, true, false, ◌&&◌, List, [], ◌∷◌, ◌++◌, Option, none,
  some, Result, ok, err, ◌==◌, if◌then◌else◌,
}
use ocp_offline.Store.Models.{Transfer}
use ocp_offline.Store.Table.{StoreError}
use ocp_offline.Store.Transfers.{create_transfer, create_transfer_archive, is_archive_validated}
use ocp_offline.Engine.Export.{ArchiveInfo}
use ocp_offline.Engine.Import.Base.{
  ImportOptions, ImportError, Source, Env, State, empty_report, cancelled,
}

unfoldable pub all_present : Source → List ArchiveInfo → Option Text
all_present s [] = none
all_present s (a ∷ as') = if s.present a.name then all_present s as' else some a.name

-- A new transfer record; its id stays 0 if it cannot be created.
unfoldable pub start_transfer : Env → ImportOptions → State → State
start_transfer env opts st =
    let fresh : Transfer = record {
      id = 0;
      direction = codes "import";
      path = opts.source_dir;
      providers = [];
      archive_count = 0;
      total_size = 0;
      manifest_hash = [];
      status = codes "running";
      error_message = [];
      start_time = env.now;
      end_time = 0;
    } in
    let (res, t) = create_transfer env.faults.on_create fresh st.transfers in
    record st {
      transfers = t;
      transfer = record fresh { id = elim res [ ok n ↦ n | err e ↦ 0 ] };
      report = empty_report;
      skipped = [];
    }

-- A hash that was checked: the archive counts as validated and is recorded.
unfoldable pub count_valid : Env → ArchiveInfo → State → State
count_valid env a st =
    let counted = record st {
      report = record (st.report) { archives_validated = st.report.archives_validated + 1 };
    } in
    if st.transfer.id == 0 then counted else record counted {
      archives =
          (create_transfer_archive (env.faults.on_archive a.name)
            (record {
              id = 0;
              transfer_id = st.transfer.id;
              archive_name = a.name;
              sha256 = a.sha256;
              size = a.size;
              validated = true;
              validated_at = env.now;
            })
            st.archives).1;
    }

unfoldable pub count_failed : Text → State → State
count_failed message st = record st {
  report = record (st.report) {
    archives_failed = st.report.archives_failed + 1;
    errors = st.report.errors ++ message ∷ [];
  };
}

unfoldable pub count_skipped : ArchiveInfo → State → State
count_skipped a st = record st {
  report = record (st.report) {
    archives_skipped = st.report.archives_skipped + 1;
    archives_validated = st.report.archives_validated + 1;
  };
  skipped = a.name ∷ st.skipped;
}

-- The comparison with the hash that was read. An error is reported by the archive's name.
unfoldable pub compare_hash : Env → ArchiveInfo → Option Text → State → State
compare_hash env a none st = count_failed a.name st
compare_hash env a (some actual) st =
    if actual == a.sha256 then count_valid env a st else count_failed a.name st

-- The hash check of one archive.
unfoldable pub check_hash : Env → ArchiveInfo → State → State
check_hash env a st = compare_hash env a (env.source.hash a.name) st

abbrev or_false : Result StoreError Bool → Bool
or_false (ok b) = b
or_false (err e) = false

-- Whether an archive is skipped: it was validated before, in skip-validated mode.
unfoldable pub already_valid : Env → ImportOptions → ArchiveInfo → State → Bool
already_valid env opts a st =
    opts.skip_validated
    && or_false (
        is_archive_validated (env.faults.on_check a.name) opts.source_dir a.name a.sha256
          st.archives st.transfers)

unfoldable pub validate_one : Env → ImportOptions → ArchiveInfo → State → State
validate_one env opts a st =
    if opts.force
    then count_valid env a st
    else if already_valid env opts a st
    then count_skipped a st
    else check_hash env a st

-- The loop over the archives, which stops where the context is done.
unfoldable pub validate_all :
    Env → ImportOptions → List ArchiveInfo → State → Result ImportError (Unit {0}) × State
validate_all env opts [] st = (ok tt, st)
validate_all env opts (a ∷ as') st =
    let rest = validate_all env opts as' (validate_one env opts a st) in
    if env.source.done_validating a.name then (err cancelled, st) else rest
