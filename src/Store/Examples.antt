-- ===== src/Store/Examples.antt =====
-- The theorems about internal/store at concrete tables.
use ocp_offline.Prelude.{
  ◌≡◌, refl, codes, text_eq, text_beq, nat_eq, true, false, [], ◌∷◌, some, ok, arith, sort_by,
  text_lt, insert_sorted,
}
use ocp_offline.Store.Models.{
  SyncRun, FileRecord, Transfer, TransferArchive, FailedFileRecord, ProviderConfig,
}
use ocp_offline.Store.Table.{Table, empty, no_fault, IsKeyed, count_where, first_where, has_key}
use ocp_offline.Store.SyncRuns.{sync_run_row}
use ocp_offline.Store.Files.{upsert_file_record, get_file_record, list_file_records}
use ocp_offline.Store.Files.Laws.{IsFileTable, get-upsert}
use ocp_offline.Store.Files.Unique.{upsert-IsFileTable}
use ocp_offline.Store.Failed.{add_failed_file}
use ocp_offline.Store.Failed.Laws.{open_count, add_failed_file-open}
use ocp_offline.Store.Transfers.{
  transfer_row, create_transfer_archive, is_archive_validated, count_validated,
}
use ocp_offline.Store.Transfers.Laws.{is_archive_validated-create}

abbrev a_run : SyncRun
a_run = record {
  id = 0;
  provider = codes "epel";
  start_time = 5;
  end_time = 0;
  files_downloaded = 0;
  files_deleted = 0;
  files_skipped = 0;
  files_failed = 0;
  bytes_transferred = 0;
  status = codes "running";
  error_message = [];
}

abbrev runs_before : Table SyncRun
runs_before = record { rows = record a_run { id = 3 } ∷ []; seq = 4 }

runs-IsKeyed : IsKeyed runs_before
runs-IsKeyed = record { given = (omega arith, tt); unique = (tt, tt) }

abbrev a_file : FileRecord
a_file = record {
  id = 0;
  provider = codes "epel";
  path = codes "9/x.rpm";
  size = 12;
  sha256 = codes "ab";
  last_modified = 5;
  last_verified = 6;
  sync_run_id = 3;
}

abbrev files_before : Table FileRecord
files_before = record {
  rows = record a_file { id = 1; size = 7 } ∷ record a_file { id = 2; path = codes "9/y.rpm" } ∷ [];
  seq = 2;
}

files-IsFileTable : IsFileTable files_before
unfolding text_beq
files-IsFileTable = record {
  given = (omega arith, (omega arith, tt));
  unique = ((refl, tt), (tt, tt));
}

files_listed : list_file_records no_fault (codes "epel") files_before ≡ ok files_before.rows
unfolding list_file_records text_beq sort_by text_lt insert_sorted
files_listed = refl

get-upsert_example :
    get_file_record no_fault
      (codes "epel")
      (codes "9/x.rpm")
      (upsert_file_record no_fault a_file files_before).1
    ≡ ok (record a_file { id = 3 })
unfolding text_beq
get-upsert_example =
    get-upsert a_file files_before (codes "epel") (codes "9/x.rpm") files-IsFileTable refl

upsert-IsFileTable_example : IsFileTable (upsert_file_record no_fault a_file files_before).1
upsert-IsFileTable_example = upsert-IsFileTable a_file files_before files-IsFileTable refl

abbrev a_failure : FailedFileRecord
a_failure = record {
  id = 0;
  provider = codes "epel";
  file_path = codes "9/x.rpm";
  url = [];
  dest_path = codes "/data/9/x.rpm";
  expected_checksum = [];
  expected_size = 12;
  error = codes "timeout";
  retry_count = 0;
  first_failure = 5;
  last_failure = 5;
  resolved = false;
}

abbrev failures_before : Table FailedFileRecord
failures_before = record {
  rows = record a_failure { id = 1; url = codes "http://m/x"; retry_count = 2 } ∷ [];
  seq = 1;
}

add_failed_file-open_example :
    open_count
      (codes "epel")
      (codes "9/x.rpm")
      (add_failed_file no_fault no_fault a_failure failures_before).1
    ≡ 1
unfolding text_beq count_where
add_failed_file-open_example =
    add_failed_file-open a_failure failures_before (codes "epel") (codes "9/x.rpm")

abbrev a_transfer : Transfer
a_transfer = record {
  id = 4;
  direction = codes "import";
  path = codes "/mnt/usb";
  providers = [];
  archive_count = 0;
  total_size = 0;
  manifest_hash = [];
  status = codes "failed";
  error_message = [];
  start_time = 5;
  end_time = 6;
}

abbrev transfers_before : Table Transfer
transfers_before = record { rows = a_transfer ∷ []; seq = 4 }

abbrev an_archive : TransferArchive
an_archive = record {
  id = 0;
  transfer_id = 4;
  archive_name = codes "a.tar.zst";
  sha256 = codes "ab";
  size = 9;
  validated = true;
  validated_at = 6;
}

transfer_found :
    first_where (has_key an_archive.transfer_id) transfers_before.rows ≡ some a_transfer
unfolding first_where
transfer_found = refl

is_archive_validated-create_example :
    is_archive_validated no_fault
      (codes "/mnt/usb")
      (codes "a.tar.zst")
      (codes "ab")
      (create_transfer_archive no_fault an_archive empty).1
      transfers_before
    ≡ ok true
is_archive_validated-create_example =
    is_archive_validated-create an_archive a_transfer empty transfers_before refl transfer_found

abbrev archives_before : Table TransferArchive
archives_before = record { rows = record an_archive { id = 1 } ∷ []; seq = 1 }

archive_valid :
    is_archive_validated no_fault
      (codes "/mnt/usb")
      (codes "a.tar.zst")
      (codes "ab")
      archives_before
      transfers_before
    ≡ ok true
unfolding is_archive_validated count_validated text_beq count_where
archive_valid = refl

abbrev a_config : ProviderConfig
a_config = record {
  id = 1;
  name = codes "epel";
  kind = codes "rpm_repo";
  enabled = true;
  config_json = codes "{}";
  created_at = 1;
  updated_at = 1;
}
