-- ===== src/Engine/Export.antt =====
-- internal/engine/export.go and manifest.go: split archives of the files of some providers, and
-- their manifest. The file system, the tar and zstd writers and the clock are a parameter, a
-- `Media`. The logger, the `.sha256` side files and the README text are not modelled.
mod Data
pub mod Splitting
pub mod Paths
pub mod Contents
pub mod Numbered
pub mod Total
use ocp_offline.Prelude.{
  ℕ, zero, suc, ◌+◌, ◌-◌, ◌/◌, ◌%◌, ◌^◌, Text, codes, text_eq, nat_eq, Bool, not, ◌&&◌, List, [],
  ◌∷◌, ◌++◌, map, Option, none, some, Result, ok, err, map_err, or_err, ◌>>=◌, ◌==◌, ltb,
  if◌then◌else◌, is_empty, length, keep, sum_by, Map, insert, lookup,
}
use ocp_offline.Safety.Path.{join, clean}
use ocp_offline.Store.Models.{FileRecord, Transfer}
use ocp_offline.Store.Table.{Table, Fault, no_fault}
use ocp_offline.Store.Files.{list_file_records}
use ocp_offline.Store.Transfers.{create_transfer}
pub use Data.*

-- filepath.Join of three elements
unfoldable pub join_three : Text → Text → Text → Text
join_three [] b c = join b c
join_three (x ∷ a) b c = clean ((x ∷ a) ++ b'/' ∷ (b ++ b'/' ∷ c))

unfoldable pub emit_digits : ℕ → ℕ → Text → Text
emit_digits zero n out = out
emit_digits (suc fuel) n out =
    let rest = emit_digits fuel (n / 10) ((b'0' + n % 10) ∷ out) in if n == 0 then out else rest

abbrev pad_three : Text → Text
pad_three [] = codes "000"
pad_three (a ∷ []) = codes "00" ++ a ∷ []
pad_three (a ∷ b ∷ []) = b'0' ∷ a ∷ b ∷ []
pad_three ds = ds

-- fmt.Sprintf("airgap-transfer-%03d.tar.zst", n)
unfoldable pub archive_name : ℕ → Text
archive_name n = codes "airgap-transfer-" ++ (pad_three (emit_digits n n []) ++ codes ".tar.zst")

abbrev pub tar_path : FileEntry → Text
tar_path f = join f.provider f.rel_path

-- The entry of a record, if its file is on disk.
unfoldable pub entry_of : Text → Text → FileRecord → FileEntry
entry_of data_dir provider rec = record {
  provider = provider;
  rel_path = rec.path;
  abs_path = join_three data_dir provider rec.path;
  size = rec.size;
  sha256 = rec.sha256;
}

-- The loop over the records of one provider.
unfoldable pub entries_of : Media → Text → Text → List FileRecord → List FileEntry
entries_of m data_dir provider recs =
    keep (λ f. m.on_disk f.abs_path) (map (entry_of data_dir provider) recs)

-- The loop over the providers: a provider whose records cannot be listed is skipped.
unfoldable pub collect :
    Media
    → Text
    → (Text → Fault)
    → (Text → Option Text)
    → Table FileRecord
    → List Text
    → List FileEntry × Map ManifestProvider
    → List FileEntry × Map ManifestProvider
collect m data_dir faults kinds t [] acc = acc
collect m data_dir faults kinds t (p ∷ ps) (files, summary) =
    collect m data_dir faults kinds t ps (elim (list_file_records (faults p) p t) [
      | err e ↦ (files, summary)
      | ok recs ↦
          let entries = entries_of m data_dir p recs in
          (
            files ++ entries,
            insert p
                (record {
                  kind = elim (kinds p) [ none ↦ [] | some k ↦ k ];
                  file_count = length entries;
                  total_size = sum_by (λ f. f.size) entries;
                })
                summary,
          )
    ])

-- The open archive, and those that are closed.
pub record Writer : Type 0 where
  pub num : ℕ
  pub current_size : ℕ
  pub current : List FileEntry
  pub closed : List Archive

unfoldable pub open_archive : Media → ℕ → List Archive → Result ExportError Writer
open_archive m num closed =
    if m.can_open num
    then ok (record { num = num; current_size = 0; current = []; closed = closed })
    else err (open_failed num)

-- The description of the open archive, when its file has this size and hash.
abbrev pub sealed_archive : Writer → ℕ → Text → Archive
sealed_archive w size hash = record {
  info = record {
    name = archive_name w.num;
    size = size;
    sha256 = hash;
    files = map tar_path w.current;
  };
  entries = w.current;
}

-- closeArchive, and the append to the archives
unfoldable pub close_archive : Media → Writer → Result ExportError (List Archive)
close_archive m w = elim (m.sealed w.num w.current) [
  | none ↦ err (close_failed w.num)
  | some (size, hash) ↦ ok (w.closed ++ sealed_archive w size hash ∷ [])
]

-- The sum of two int64 values, as the bit pattern of the result.
abbrev pub add_int64 : ℕ → ℕ → ℕ
add_int64 a b = (a + b) % 2 ^ 64

-- Whether the int64 value of a bit pattern is above a number; a pattern from 2 ^ 63 on is negative.
abbrev pub above : ℕ → ℕ → Bool
above n pattern' = ltb pattern' (2 ^ 63) && ltb n pattern'

-- Whether a file would exceed the split size, and the archive is not empty.
abbrev pub exceeds : ℕ → ℕ → ℕ → Bool
exceeds split_size current_size size =
    above 0 current_size && above split_size (add_int64 current_size size)

-- Roll to the next archive if the file would exceed the split size, unless the archive is empty.
unfoldable pub roll : Media → ℕ → Writer → FileEntry → Result ExportError Writer
roll m split_size w f =
    if exceeds split_size w.current_size f.size
    then (do closed ← close_archive m w; open_archive m (w.num + 1) closed)
    else ok w

unfoldable pub add_file : Media → ℕ → Writer → FileEntry → Result ExportError Writer
add_file m split_size w f = if m.is_done f then err cancelled else do
  w' ← roll m split_size w f
  if m.can_add f
      then ok (record w' {
        current_size = add_int64 w'.current_size f.size;
        current = w'.current ++ f ∷ [];
      })
      else err (add_failed (tar_path f))

unfoldable pub add_files : Media → ℕ → Writer → List FileEntry → Result ExportError Writer
add_files m split_size w [] = ok w
add_files m split_size w (f ∷ fs) = do w' ← add_file m split_size w f; add_files m split_size w' fs

-- The archives of some files.
unfoldable pub pack : Media → ℕ → List FileEntry → Result ExportError (List Archive)
pack m split_size files = do
  w ← open_archive m 1 []
  w' ← add_files m split_size w files
  close_archive m w'

abbrev pub inventory_entry : FileEntry → ManifestFile
inventory_entry f = record {
  provider = f.provider;
  path = f.rel_path;
  size = f.size;
  sha256 = f.sha256;
}

unfoldable pub manifest_of : List FileEntry → Map ManifestProvider → List Archive → TransferManifest
manifest_of files summary archives = record {
  providers = summary;
  archives = map (λ a. a.info) archives;
  total_archives = length archives;
  total_size = sum_by (λ f. f.size) files;
  file_inventory = map inventory_entry files;
}

pub record Exported : Type 0 where
  pub archives : List Archive
  pub manifest : TransferManifest
  pub total_files : ℕ

abbrev comma_join : List Text → Text
comma_join [] = []
comma_join (p ∷ []) = p
comma_join (p ∷ q ∷ ps) = p ++ b',' ∷ comma_join (q ∷ ps)

unfoldable pub transfer_of : Media → ExportOptions → Exported → Text → Transfer
transfer_of m opts e hash = record {
  id = 0;
  direction = codes "export";
  path = opts.output_dir;
  providers = comma_join opts.providers;
  archive_count = length e.archives;
  total_size = e.manifest.total_size;
  manifest_hash = hash;
  status = codes "completed";
  error_message = [];
  start_time = m.now;
  end_time = m.now;
}

-- Everything of Export up to the record in the store.
unfoldable pub export_files :
    Media
    → Text
    → (Text → Fault)
    → (Text → Option Text)
    → Table FileRecord
    → ExportOptions
    → Result ExportError (Exported × Text)
export_files m data_dir faults kinds t opts =
    if not (opts.compression == codes "zstd")
    then err unsupported_compression
    else if opts.split_size == 0
    then err no_split_size
    else if not (m.make_dir opts.output_dir)
    then err no_output_dir
    else let collected = collect m data_dir faults kinds t opts.providers ([], []) in
      if length collected.0 == 0 then err no_files else do
        archives ← pack m opts.split_size collected.0
        let manifest = manifest_of collected.0 collected.1 archives
        hash ← or_err (m.write_manifest manifest) manifest_failed
        ok (
          record { archives = archives; manifest = manifest; total_files = length collected.0 },
          hash,
        )

-- Export: a failure to record the transfer is only logged.
unfoldable pub export :
    Media
    → Text
    → (Text → Fault)
    → Fault
    → (Text → Option Text)
    → Table FileRecord
    → ExportOptions
    → Table Transfer
    → Result ExportError Exported × Table Transfer
export m data_dir faults fault kinds t opts transfers =
    elim (export_files m data_dir faults kinds t opts) [
      | err e ↦ (err e, transfers)
      | ok (e, hash) ↦ (ok e, (create_transfer fault (transfer_of m opts e hash) transfers).1)
    ]
