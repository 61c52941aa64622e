-- ===== src/Engine/Examples.antt =====
-- The theorems about the sizes and the export of internal/engine at concrete inputs.
use ocp_offline.Prelude.{
  ℕ, ◌*◌, ◌^◌, ◌-◌, ◌≡◌, refl, Text, codes, text_eq, text_beq, nat_eq, true, false, List, [], ◌∷◌,
  ◌++◌, some, ok, length, All, arith, negsuc, has_prefix,
}
use ocp_offline.Engine.Size.{parse_size}
use ocp_offline.Engine.Size.Exact.{parse_size-overflow}
use ocp_offline.Engine.Export.{
  Media, FileEntry, Archive, pack, open_archive, close_archive, add_files, add_file, roll,
  archive_name, emit_digits,
}
use ocp_offline.Engine.Export.Contents.{all_entries, pack-entries}
use ocp_offline.Engine.Export.Total.{IsWorking, Packs, pack_total}
use ocp_offline.Engine.Export.Splitting.{ArchiveFits, pack-ArchiveFits}
use ocp_offline.Safety.Path.{join, clean}
use ocp_offline.Safety.Path.Resolve.{parse, render}
use ocp_offline.Safety.Path.Split.{split, join_with}

parse_size-overflow_example :
    parse_size (codes "9000000TB") ≡ ok (negsuc (2 ^ 64 - 1 - 9000000 * 2 ^ 40))
parse_size-overflow_example =
    parse_size-overflow b'9' (codes "000000") (ground arith) (omega arith) (omega arith)

abbrev file_of : Text → ℕ → FileEntry
file_of name n = record {
  provider = codes "epel";
  rel_path = name;
  abs_path = codes "/d/epel/" ++ name;
  size = n;
  sha256 = codes "ab";
}

abbrev files : List FileEntry
files = file_of (codes "a") 6 ∷ file_of (codes "b") 5 ∷ []

abbrev media : Media
media = record {
  make_dir = λ p. true;
  on_disk = λ p. true;
  can_open = λ n. true;
  can_add = λ f. true;
  is_done = λ f. false;
  sealed = λ n es. some (length es, codes "cd");
  write_manifest = λ m. some (codes "ef");
  now = 7;
}

abbrev sealed : Text → Text → FileEntry → Archive
sealed name path f = record {
  info = record { name = name; size = 1; sha256 = codes "cd"; files = path ∷ [] };
  entries = f ∷ [];
}

abbrev archives : List Archive
archives =
    sealed (codes "airgap-transfer-001.tar.zst") (codes "epel/a") (file_of (codes "a") 6)
    ∷ sealed (codes "airgap-transfer-002.tar.zst") (codes "epel/b") (file_of (codes "b") 5)
    ∷ []

packed : pack media 10 files ≡ ok archives
unfolding pack open_archive close_archive add_files add_file roll archive_name emit_digits join
    clean parse render split join_with has_prefix text_beq
packed = refl

pack-entries_example : all_entries archives ≡ files
pack-entries_example = pack-entries media 10 files packed

pack-ArchiveFits_example : All (ArchiveFits 10) archives
pack-ArchiveFits_example = pack-ArchiveFits media 10 files (omega arith) packed

media-IsWorking : IsWorking media
media-IsWorking = record {
  opens = λ n. refl;
  adds = λ f. refl;
  runs = λ f. refl;
  seals = λ n es. ((length es, codes "cd"), refl);
}

pack_total_example : (as' : List Archive) × (pack media 10 files ≡ ok as') × Packs 10 files as'
pack_total_example = pack_total media 10 files media-IsWorking (omega arith)
