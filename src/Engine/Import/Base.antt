-- ===== src/Engine/Import/Base.antt =====
-- The options, the report and the state of `Import` in internal/engine/import.go, and the parameters
-- of its model: what the medium holds, what the store's driver reports, and the file system.
use ocp_offline.Prelude.{ℕ, Text, text_eq, nat_eq, Bool, List, [], Option, ◌==◌, if◌then◌else◌}
use ocp_offline.Store.Models.{FileRecord, Transfer, TransferArchive}
use ocp_offline.Store.Table.{Table, Fault}
use ocp_offline.Store.Transfers.{update_transfer}
use ocp_offline.Engine.Export.{TransferManifest}
use ocp_offline.Engine.Import.Archive.{TarItem, LocalFs, Disk}

pub record ImportOptions : Type 0 where
  pub source_dir : Text
  pub verify_only : Bool
  pub force : Bool
  pub skip_validated : Bool

pub record ImportReport : Type 0 where
  pub archives_validated : ℕ
  pub archives_failed : ℕ
  pub archives_skipped : ℕ
  pub files_extracted : ℕ
  pub total_size : ℕ
  pub errors : List Text

pub data ImportError : Type 0 where
  no_manifest cancelled : ImportError
  archive_not_found : Text → ImportError
  failed_validation : ℕ → ImportError
  failed_extraction : Text → ImportError

-- What is on the medium: the manifest if it can be read and parsed, the archives by name, their
-- hashes (`none` is a read error), and their tar entries (`none` if the archive cannot be opened).
-- `done_at` tells at which archive the context is found done, in the two loops.
pub record Source : Type 0 where
  pub manifest : Option TransferManifest
  pub present : Text → Bool
  pub hash : Text → Option Text
  pub items : Text → Option (List TarItem)
  pub done_validating : Text → Bool
  pub done_extracting : Text → Bool

-- What the store's driver reports, by statement.
pub record Faults : Type 0 where
  pub on_create : Fault
  pub on_update : Fault
  pub on_archive : Text → Fault
  pub on_check : Text → Fault
  pub on_upsert : Text → Fault

-- `absent` is the test os.IsNotExist of an os.Stat. `createrepo` is what createrepo_c leaves of the disk
-- when it is run for a directory, also when it is not there or fails.
pub record Env : Type 0 where
  pub source : Source
  pub fs : LocalFs
  pub faults : Faults
  pub data_dir : Text
  pub cwd : Option Text
  pub now : ℕ
  pub absent : Text → Disk → Bool
  pub createrepo : Text → Disk → Disk

-- The store's tables, the disk, the transfer record and the report.
pub record State : Type 0 where
  pub transfers : Table Transfer
  pub archives : Table TransferArchive
  pub files : Table FileRecord
  pub disk : Disk
  pub transfer : Transfer
  pub report : ImportReport
  pub skipped : List Text

abbrev pub empty_report : ImportReport
empty_report = record {
  archives_validated = 0;
  archives_failed = 0;
  archives_skipped = 0;
  files_extracted = 0;
  total_size = 0;
  errors = [];
}

-- `if transfer.ID != 0 { ...; _ = m.store.UpdateTransfer(transfer) }`
unfoldable pub save_transfer : Env → (Transfer → Transfer) → State → State
save_transfer env f st = if st.transfer.id == 0 then st else record st {
  transfer = f st.transfer;
  transfers = (update_transfer env.faults.on_update (f st.transfer) st.transfers).1;
}

abbrev pub ended : Env → Text → Text → Transfer → Transfer
ended env status message t = record t {
  status = status;
  error_message = message;
  end_time = env.now;
}
