-- ===== src/Store/Transfers.antt =====
-- The transfer and transfer archive operations of internal/store/sqlite.go.
pub mod Laws
use ocp_offline.Prelude.{
  ℕ, ◌+◌, Text, Bool, true, false, ◌&&◌, List, [], ◌∷◌, Result, ◌≡◌, refl, nat_eq, text_eq, ◌==◌,
  if◌then◌else◌, keep, ltb, sort_by, text_lt, ok, err,
}
use ocp_offline.Store.Models.{Transfer, TransferArchive}
use ocp_offline.Store.Table.{
  Row, Table, Fault, StoreError, exec, affected, query, update_where, count_where, insert_row,
  has_key,
}
use ocp_offline.Store.SyncRuns.{limited}

pub transfer_id-id : (n : ℕ) (a : Transfer) → (record a { id = n }).id ≡ n
transfer_id-id n a = refl

instance abbrev pub transfer_row : Row Transfer
transfer_row = record {
  key = λ a. a.id;
  with_key = λ n a. record a { id = n };
  key-with_key = transfer_id-id;
}

pub archive_id-id : (n : ℕ) (a : TransferArchive) → (record a { id = n }).id ≡ n
archive_id-id n a = refl

instance abbrev pub archive_row : Row TransferArchive
archive_row = record {
  key = λ a. a.id;
  with_key = λ n a. record a { id = n };
  key-with_key = archive_id-id;
}

-- CreateTransfer: the id of the new row
unfoldable pub create_transfer :
    Fault → Transfer → Table Transfer → Result StoreError ℕ × Table Transfer
create_transfer fault transfer t = exec fault t (insert_row transfer)

-- UpdateTransfer
unfoldable pub update_transfer :
    Fault → Transfer → Table Transfer → Result StoreError (Unit {0}) × Table Transfer
update_transfer fault transfer t = affected (
    exec fault t (λ s. (
      count_where (has_key transfer.id) s.rows,
      record s { rows = update_where (has_key transfer.id) (λ old. transfer) s.rows },
    )))

-- CreateTransferArchive: the id of the new row
unfoldable pub create_transfer_archive :
    Fault → TransferArchive → Table TransferArchive → Result StoreError ℕ × Table TransferArchive
create_transfer_archive fault archive t = exec fault t (insert_row archive)

-- MarkArchiveValidated, at the time of the database
unfoldable pub mark_archive_validated :
    Fault → ℕ → ℕ → Table TransferArchive → Result StoreError (Unit {0}) × Table TransferArchive
mark_archive_validated fault now id t = affected (
    exec fault t (λ s. (
      count_where (has_key id) s.rows,
      record s {
        rows =
            update_where (has_key id) (λ a. record a { validated = true; validated_at = now })
              s.rows;
      },
    )))

-- ListTransferArchives, by name
unfoldable pub list_transfer_archives :
    Fault → ℕ → Table TransferArchive → Result StoreError (List TransferArchive)
list_transfer_archives fault id t = query fault (
    sort_by (λ (a b : TransferArchive). text_lt a.archive_name b.archive_name)
      (keep (λ a. a.transfer_id == id) t.rows))

-- JOIN transfers t ON ta.transfer_id = t.id WHERE t.path = ?, for one archive
abbrev pub transfers_of : Text → TransferArchive → List Transfer → ℕ
transfers_of path a transfers = count_where (λ t. t.id == a.transfer_id && t.path == path) transfers

-- WHERE ta.archive_name = ? AND ta.sha256 = ? AND ta.validated = 1
abbrev pub is_valid_archive : Text → Text → TransferArchive → Bool
is_valid_archive name sha256 a = (a.archive_name == name && a.sha256 == sha256) && a.validated

-- The number of joined rows.
unfoldable pub count_validated : Text → Text → Text → List TransferArchive → List Transfer → ℕ
count_validated path name sha256 [] transfers = 0
count_validated path name sha256 (a ∷ archives) transfers =
    (if is_valid_archive name sha256 a then transfers_of path a transfers else 0)
    + count_validated path name sha256 archives transfers

-- IsArchiveValidated
unfoldable pub is_archive_validated :
    Fault → Text → Text → Text → Table TransferArchive → Table Transfer → Result StoreError Bool
is_archive_validated fault path name sha256 archives transfers =
    query fault (ltb 0 (count_validated path name sha256 archives.rows transfers.rows))

-- ListTransfers, newest first
unfoldable pub list_transfers : Fault → ℕ → Table Transfer → Result StoreError (List Transfer)
list_transfers fault limit t =
    query fault (limited limit (sort_by (λ (a b : Transfer). ltb b.start_time a.start_time) t.rows))
