-- ===== src/Engine/Import/Archive.antt =====
-- The tar entries of an archive, and the loop of `extractArchive` in internal/engine/import.go.
use ocp_offline.Prelude.{
  ℕ, ◌+◌, Text, Bool, true, List, [], ◌∷◌, Option, none, some, ok, err, if◌then◌else◌, length, Map,
  insert,
}
use ocp_offline.Safety.Path.{safe_join_under}

-- What the tar reader returns next: an entry, or a read error. The end of the list is the end of the
-- archive.
pub data TarItem : Type 0 where
  directory : Text → TarItem
  regular : Text → Text → TarItem
  special : Text → TarItem
  unreadable : TarItem

-- The files on disk, by absolute path.
abbrev pub Disk : Type 0
Disk = Map Text

-- Whether a path's parent can be made, whether it can be created, and what a copy that fails leaves.
pub record LocalFs : Type 0 where
  pub can_make_parent : Text → Bool
  pub can_create : Text → Bool
  pub broken_copy : Text → Option Text

pub record Extracted : Type 0 where
  pub count : ℕ
  pub bytes : ℕ
  pub failed : Bool
  pub disk : Disk

-- A regular entry, written at its safe path.
unfoldable pub write_entry : LocalFs → Text → Text → Extracted → Extracted
write_entry fs path content x =
    if fs.can_make_parent path
    then (if fs.can_create path
        then elim (fs.broken_copy path) [
          | some part ↦ record x { failed = true; disk = insert path part x.disk }
          | none ↦ record x {
            count = x.count + 1;
            bytes = x.bytes + length content;
            disk = insert path content x.disk;
          }
        ]
        else record x { failed = true })
    else record x { failed = true }

-- One entry that the tar reader returned.
unfoldable pub extract_item : LocalFs → Option Text → Text → TarItem → Extracted → Extracted
extract_item fs cwd data_dir (directory name) x = x
extract_item fs cwd data_dir (special name) x = record x { failed = true }
extract_item fs cwd data_dir unreadable x = record x { failed = true }
extract_item fs cwd data_dir (regular name content) x = elim (safe_join_under cwd data_dir name) [
  | err e ↦ record x { failed = true }
  | ok path ↦ write_entry fs path content x
]

-- The loop: it returns at the first failure.
unfoldable pub extract_items : LocalFs → Option Text → Text → List TarItem → Extracted → Extracted
extract_items fs cwd data_dir [] x = x
extract_items fs cwd data_dir (i ∷ is') x =
    let x' = extract_item fs cwd data_dir i x in
    let rest = extract_items fs cwd data_dir is' x' in if x'.failed then x' else rest
