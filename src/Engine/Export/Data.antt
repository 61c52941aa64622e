-- ===== src/Engine/Export/Data.antt =====
-- internal/engine/export.go and manifest.go: the options, the archives and the manifest of an export, and
-- what the machine does.
use ocp_offline.Prelude.{ℕ, Text, Bool, List, Option, Map}

pub record ExportOptions : Type 0 where
  pub output_dir : Text
  pub providers : List Text
  pub split_size : ℕ
  pub compression : Text

pub record FileEntry : Type 0 where
  pub provider : Text
  pub rel_path : Text
  pub abs_path : Text
  pub size : ℕ
  pub sha256 : Text

pub record ArchiveInfo : Type 0 where
  pub name : Text
  pub size : ℕ
  pub sha256 : Text
  pub files : List Text

-- An archive on the transfer medium: its description and the entries of its tar.
pub record Archive : Type 0 where
  pub info : ArchiveInfo
  pub entries : List FileEntry

pub record ManifestProvider : Type 0 where
  pub kind : Text
  pub file_count : ℕ
  pub total_size : ℕ

pub record ManifestFile : Type 0 where
  pub provider : Text
  pub path : Text
  pub size : ℕ
  pub sha256 : Text

pub record TransferManifest : Type 0 where
  pub providers : Map ManifestProvider
  pub archives : List ArchiveInfo
  pub total_archives : ℕ
  pub total_size : ℕ
  pub file_inventory : List ManifestFile

pub data ExportError : Type 0 where
  unsupported_compression no_split_size no_output_dir no_files cancelled manifest_failed :
      ExportError
  open_failed close_failed : ℕ → ExportError
  add_failed : Text → ExportError

-- What the machine does: which paths exist, which archives can be created, which files can be added
-- to one, when the context is done, and the size and hash of an archive that is closed.
pub record Media : Type 0 where
  pub make_dir : Text → Bool
  pub on_disk : Text → Bool
  pub can_open : ℕ → Bool
  pub can_add : FileEntry → Bool
  pub is_done : FileEntry → Bool
  pub sealed : ℕ → List FileEntry → Option (ℕ × Text)
  pub write_manifest : TransferManifest → Option Text
  pub now : ℕ
