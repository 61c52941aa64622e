-- ===== src/Engine/Import/Examples.antt =====
-- The theorems about internal/engine/import.go at concrete inputs.
use ocp_offline.Prelude.{
  ◌≡◌, refl, Text, codes, text_eq, text_beq, nat_eq, Bool, true, false, List, [], ◌∷◌, none, some,
  ok, All, has_prefix, insert, lookup, lookup-insert, ◌++◌, ◌⊎◌, inl, inr, ap, arith, length,
  length-append, text_beq_iff, ◌==◌, Bool-cases,
}
use ocp_offline.Engine.Export.{ArchiveInfo, TransferManifest}
use ocp_offline.Safety.Path.Guarantees.{Below}
use ocp_offline.Engine.Import.Archive.{
  TarItem, Disk, regular, special, LocalFs, extract_items, extract_item, write_entry,
}
use ocp_offline.Engine.Import.Confined.{Spares}
use ocp_offline.Engine.Import.Guards.{Untouched}
use ocp_offline.Engine.Import.Verified.{IsIntact, mismatch-Untouched, import_ok-IsIntact}
use ocp_offline.Engine.Import.Skipped.{AllValid, skip_validated-disk, validated_state}
use ocp_offline.Engine.Import.Reach.{import_transfer-Spares}
use ocp_offline.Engine.Import.{
  Env, State, ImportOptions, ImportReport, import_transfer, empty_report, import_read,
  import_present, all_present, start_transfer, validate_all, validate_one, already_valid,
  check_hash, compare_hash, count_valid, count_skipped, after_validation, finish_import,
  extract_all, extract_archive, extract_opened, is_member, after_extraction, record_files,
  save_transfer,
}
use ocp_offline.Safety.Path.{
  safe_join_under, ensure_under_root, clean_relative_path, is_parent, abs, is_abs, join, rel,
  rel_elements, clean,
}
use ocp_offline.Safety.Path.Resolve.{parse, render}
use ocp_offline.Safety.Path.Split.{split, join_with}
use ocp_offline.Store.Models.{Transfer}
use ocp_offline.Store.Transfers.{
  create_transfer, update_transfer, create_transfer_archive, is_archive_validated, count_validated,
}
use ocp_offline.Store.Table.{empty, no_fault, insert_row, count_where}

abbrev an_archive : ArchiveInfo
an_archive = record {
  name = codes "a.zst";
  size = 9;
  sha256 = codes "ab";
  files = codes "epel/x" ∷ [];
}

abbrev a_manifest : TransferManifest
a_manifest = record {
  providers = [];
  archives = an_archive ∷ [];
  total_archives = 1;
  total_size = 2;
  file_inventory = [];
}

abbrev local_fs : LocalFs
local_fs = record { can_make_parent = λ p. true; can_create = λ p. true; broken_copy = λ p. none }

abbrev tar_items : List TarItem
tar_items = regular (codes "epel/x") (codes "hi") ∷ special (codes "link") ∷ []

abbrev env_with : Text → Env
env_with hash = record {
  source = record {
    manifest = some a_manifest;
    present = λ n. true;
    hash = λ n. some hash;
    items = λ n. some (regular (codes "epel/x") (codes "hi") ∷ []);
    done_validating = λ n. false;
    done_extracting = λ n. false;
  };
  fs = local_fs;
  faults = record {
    on_create = no_fault;
    on_update = no_fault;
    on_archive = λ n. no_fault;
    on_check = λ n. no_fault;
    on_upsert = λ n. no_fault;
  };
  data_dir = codes "/d";
  cwd = none;
  now = 7;
  absent = λ p d. false;
  createrepo = λ dir d. insert (dir ++ codes "/repodata/repomd.xml") (codes "r") d;
}

abbrev options : Bool → ImportOptions
options verify_only = record {
  source_dir = codes "/mnt";
  verify_only = verify_only;
  force = false;
  skip_validated = false;
}

abbrev no_transfer : Transfer
no_transfer = record {
  id = 0;
  direction = [];
  path = [];
  providers = [];
  archive_count = 0;
  total_size = 0;
  manifest_hash = [];
  status = [];
  error_message = [];
  start_time = 0;
  end_time = 0;
}

abbrev start : State
start = record {
  transfers = empty;
  archives = empty;
  files = empty;
  disk = [];
  transfer = no_transfer;
  report = empty_report;
  skipped = [];
}

-- What createrepo_c writes has a longer path than `/etc/passwd`.
passwd-kept :
    (dir : Text) (d : Disk)
    → (lookup (codes "/etc/passwd") ((env_with (codes "ab")).createrepo dir d)
        ≡ lookup (codes "/etc/passwd") d)
      ⊎ Below dir (codes "/etc/passwd")
passwd-kept dir d =
    let written : Text = dir ++ codes "/repodata/repomd.xml" in
    elim (Bool-cases (written == codes "/etc/passwd")) [
      | inl e ↦
          let same = (text_beq_iff written (codes "/etc/passwd")).0 e in
          absurd (omega (arith, ap length same, length-append dir (codes "/repodata/repomd.xml")))
      | inr e ↦ inl (rw (lookup-insert written (codes "/etc/passwd") (codes "r") d, e) refl)
    ]

import_transfer-Spares_example :
    Spares none
      (codes "/d")
      (codes "/etc/passwd")
      []
      (import_transfer (env_with (codes "ab")) (options false) start).1.disk
import_transfer-Spares_example =
    import_transfer-Spares (env_with (codes "ab")) (options false) start (codes "/etc/passwd") tt
      passwd-kept

not-IsIntact : ¬ All (IsIntact (env_with [])) a_manifest.archives
not-IsIntact = λ h. cc (h.0)

mismatch-Untouched_example : Untouched start (import_transfer (env_with []) (options false) start).1
mismatch-Untouched_example =
    mismatch-Untouched (env_with []) (options false) a_manifest start refl refl refl not-IsIntact

abbrev a_report : ImportReport
a_report = record {
  archives_validated = 1;
  archives_failed = 0;
  archives_skipped = 0;
  files_extracted = 1;
  total_size = 2;
  errors = [];
}

imported : (import_transfer (env_with (codes "ab")) (options false) start).0 ≡ ok a_report
unfolding import_transfer import_read import_present all_present start_transfer validate_all
    validate_one already_valid check_hash compare_hash count_valid after_validation finish_import
    extract_all extract_archive extract_opened is_member extract_items extract_item write_entry
    after_extraction record_files save_transfer create_transfer insert_row create_transfer_archive
    update_transfer safe_join_under ensure_under_root clean_relative_path is_parent abs is_abs join
    rel rel_elements clean parse render text_beq split has_prefix join_with
imported = refl

import_ok-IsIntact_example : All (IsIntact (env_with (codes "ab"))) a_manifest.archives
import_ok-IsIntact_example =
    import_ok-IsIntact (env_with (codes "ab")) (options false) a_manifest start a_report refl refl
      refl imported

abbrev skipping : ImportOptions
skipping = record (options false) { skip_validated = true }

-- The store after a run that verified the medium only.
abbrev verified_before : State
verified_before = record start {
  transfers = record {
    rows =
        record no_transfer {
          id = 1;
          direction = codes "import";
          path = codes "/mnt";
          status = codes "completed";
        }
        ∷ [];
    seq = 1;
  };
  archives = record {
    rows =
        record {
          id = 1;
          transfer_id = 1;
          archive_name = codes "a.zst";
          sha256 = codes "ab";
          size = 9;
          validated = true;
          validated_at = 6;
        }
        ∷ [];
    seq = 1;
  };
}

all_valid :
    AllValid
      (env_with (codes "ab"))
      skipping
      (start_transfer (env_with (codes "ab")) skipping verified_before)
      a_manifest.archives
unfolding already_valid start_transfer create_transfer insert_row is_archive_validated
    count_validated count_where text_beq
all_valid = (refl, tt)

validation_ends :
    (validate_all
      (env_with (codes "ab"))
      skipping
      a_manifest.archives
      (start_transfer (env_with (codes "ab")) skipping verified_before)).0
    ≡ ok tt
unfolding validate_all validate_one already_valid count_skipped start_transfer create_transfer
    insert_row is_archive_validated count_validated count_where text_beq
validation_ends = refl

skip_validated-disk_example :
    ((extract_all (env_with (codes "ab")) a_manifest.archives (
        validated_state
          (env_with (codes "ab"))
          skipping
          a_manifest.archives
          verified_before)).1.disk
      ≡ verified_before.disk)
    × ((extract_all (env_with (codes "ab")) a_manifest.archives (
          validated_state
            (env_with (codes "ab"))
            skipping
            a_manifest.archives
            verified_before)).1.report
        ≡ (validated_state
            (env_with (codes "ab"))
            skipping
            a_manifest.archives
            verified_before).report)
skip_validated-disk_example =
    skip_validated-disk (env_with (codes "ab")) skipping a_manifest.archives verified_before refl
      all_valid validation_ends
