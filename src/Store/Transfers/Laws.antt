-- ===== src/Store/Transfers/Laws.antt =====
-- When an archive counts as validated.
use ocp_offline.Prelude.{
  ℕ, suc, ◌+◌, ◌<◌, ◌≡◌, refl, Text, true, List, [], ◌∷◌, ◌++◌, some, ok, arith, nat_eq, text_eq,
  text_beq_iff, if◌then◌else◌,
}
use ocp_offline.Store.Models.{Transfer, TransferArchive}
use ocp_offline.Store.Table.{Table, no_fault, count_where, insert_row, first_where, has_key}
use ocp_offline.Store.Transfers.{
  transfers_of, is_valid_archive, count_validated, is_archive_validated, create_transfer_archive,
  transfer_row, archive_row,
}

count_validated-append :
    (path name sha256 : Text) (xs ys : List TransferArchive) (transfers : List Transfer)
    → count_validated path name sha256 (xs ++ ys) transfers
      ≡ count_validated path name sha256 xs transfers
        + count_validated path name sha256 ys transfers
unfolding count_validated
count_validated-append path name sha256 [] ys transfers = omega arith
count_validated-append path name sha256 (a ∷ xs) ys transfers =
    omega (arith, count_validated-append path name sha256 xs ys transfers)

joined :
    (path : Text) (a : TransferArchive) (tr : Transfer) (xs : List Transfer)
    → first_where (has_key a.transfer_id) xs ≡ some tr
    → tr.path ≡ path
    → 0 < transfers_of path a xs
unfolding first_where count_where
joined path a tr [] h e = cc
joined path a tr (x ∷ xs) h e = ground (arith, joined path a tr xs, text_beq_iff x.path path)

-- The joined rows of a new archive are counted too.
count-new :
    (path name sha256 : Text) (a : TransferArchive) (n : ℕ) (xs : List TransferArchive)
    (transfers : List Transfer)
    → count_validated path name sha256 (xs ++ record a { id = n } ∷ []) transfers
      ≡ count_validated path name sha256 xs transfers
        + (if is_valid_archive name sha256 a then transfers_of path a transfers else 0)
count-new path name sha256 a n xs transfers =
    rw (count_validated-append path name sha256 xs (record a { id = n } ∷ []) transfers)
      (unfold count_validated in omega arith)

-- Recording a validated archive under a transfer makes it count as validated for that transfer's
-- path, and the archive's name and hash, whatever the status of the transfer.
pub is_archive_validated-create :
    (a : TransferArchive) (tr : Transfer) (archives : Table TransferArchive)
    (transfers : Table Transfer)
    → a.validated ≡ true
    → first_where (has_key a.transfer_id) transfers.rows ≡ some tr
    → is_archive_validated no_fault tr.path a.archive_name a.sha256
        (create_transfer_archive no_fault a archives).1
        transfers
      ≡ ok true
unfolding is_archive_validated create_transfer_archive insert_row
is_archive_validated-create a tr archives transfers v h = ground (
  arith,
  joined tr.path a tr transfers.rows h refl,
  count-new tr.path a.archive_name a.sha256 a (suc archives.seq) archives.rows transfers.rows,
  text_beq_iff a.archive_name a.archive_name,
  text_beq_iff a.sha256 a.sha256,
)

-- What counts as validated still does when more archives are recorded.
pub is_archive_validated-keeps :
    (a : TransferArchive) (archives : Table TransferArchive) (transfers : Table Transfer)
    (path name sha256 : Text)
    → is_archive_validated no_fault path name sha256 archives transfers ≡ ok true
    → is_archive_validated no_fault path name sha256
        (create_transfer_archive no_fault a archives).1
        transfers
      ≡ ok true
unfolding is_archive_validated create_transfer_archive insert_row
is_archive_validated-keeps a archives transfers path name sha256 h =
    ground (arith, count-new path name sha256 a (suc archives.seq) archives.rows transfers.rows)
