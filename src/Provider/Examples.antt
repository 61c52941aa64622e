-- ===== src/Provider/Examples.antt =====
-- The theorems about internal/provider at concrete inputs.
use ocp_offline.Prelude.{
  ℕ, ◌<◌, nat_eq, ◌≡◌, ◌↔◌, refl, Text, codes, text_eq, text_beq, true, false, List, [], ◌∷◌, none,
  ok, Map, lookup, All, has_prefix, arith,
}
use ocp_offline.Safety.Path.{
  safe_join_under, ensure_under_root, clean_relative_path, is_parent, abs, is_abs, join, rel,
  rel_elements, clean,
}
use ocp_offline.Safety.Path.Resolve.{parse, render}
use ocp_offline.Safety.Path.Split.{split, join_with}
use ocp_offline.Safety.Path.Confined.{IsName}
use ocp_offline.Provider.{download, skip, SyncAction, ValidationReport}
use ocp_offline.Download.Client.{DownloadResult}
use ocp_offline.Store.Table.{no_fault}
use ocp_offline.Engine.Export.{entry_of}
use ocp_offline.Engine.Sync.Base.{SyncEnv}
use ocp_offline.Engine.Sync.Actions.{file_record_of}
use ocp_offline.Provider.Ocp.Checksums.{is_space, parse_checksum_file}
use ocp_offline.Provider.Ocp.Checksums.RoundTrip.{
  IsWord, AreWords, print_checksums, insert_all, parse-print_checksums,
}
use ocp_offline.Provider.Epel.Metadata.{PackageInfo, EpelEnv, lost, url_of}
use ocp_offline.Provider.Epel.{
  EpelRepo, package_action, delete_action, action_at, package_path, build_action, package_actions,
  is_remote, deletions, find_deleted, repo_actions,
}
use ocp_offline.Provider.Epel.Validation.{
  invalid_result, validate_file, validate_package, validate_packages,
}
use ocp_offline.Provider.Agreement.{Agrees}
use ocp_offline.Provider.Epel.Agreement.{validate_packages-Agrees}
use ocp_offline.Provider.Epel.Exported.{exported_iff}
use ocp_offline.Provider.Epel.Cleanup.{DeletesUnlisted, repo_actions-DeletesUnlisted}

-- The hash of a text is the text.
abbrev a_env : EpelEnv
a_env = record {
  cwd = none;
  data_dir = codes "/d";
  request = λ u c. lost;
  zstd = λ t. none;
  xz = λ t. none;
  gzip = λ t. none;
  parse_repomd = λ t. none;
  parse_primary = λ t. none;
  can_read = λ p. true;
  can_write = λ p. true;
  hash = λ t. t;
  walk = λ out disk. (codes "/d/e/9/a", 2) ∷ (codes "/d/e/9/z", 1) ∷ [];
  is_done = λ p. false;
}

abbrev repo : EpelRepo
repo = record { name = codes "r"; base_url = codes "h/"; output_dir = codes "e/9" }

abbrev a_package : Text → Text → PackageInfo
a_package location checksum = record {
  name = location;
  arch = [];
  version = [];
  release = [];
  checksum = checksum;
  size = 2;
  location = location;
}

abbrev pkgs : List PackageInfo
pkgs = a_package (codes "a") (codes "aa") ∷ a_package (codes "b") (codes "bb") ∷ []

abbrev out : Text
out = codes "/d/e/9"

abbrev disk : Map Text
disk = (codes "/d/e/9/a", codes "aa") ∷ (codes "/d/e/9/z", codes "z") ∷ []

abbrev skip_a : SyncAction
skip_a =
    package_action repo (a_package (codes "a") (codes "aa")) (codes "a") (codes "/d/e/9/a") skip 2
      (codes "checksum matches")

abbrev fetch_b : SyncAction
fetch_b =
    package_action repo (a_package (codes "b") (codes "bb")) (codes "b") (codes "/d/e/9/b") download
      2 (codes "new file")

abbrev empty_report : ValidationReport
empty_report = record { provider = codes "e"; total_files = 0; valid_files = 0; invalid_files = [] }

abbrev full_report : ValidationReport
full_report = record empty_report {
  valid_files = 1;
  invalid_files =
      invalid_result (a_package (codes "b") (codes "bb")) (codes "b") (codes "/d/e/9/b")
        (codes "missing") 0 (url_of (codes "h/") (codes "b"))
      ∷ [];
}

planned : package_actions a_env repo out disk false pkgs ≡ ok (skip_a ∷ fetch_b ∷ [])
unfolding package_actions build_action package_path action_at lookup safe_join_under
    ensure_under_root clean_relative_path is_parent abs is_abs join rel rel_elements clean parse
    render text_beq split has_prefix join_with
planned = refl

validated : validate_packages a_env repo out disk pkgs empty_report ≡ ok full_report
unfolding validate_packages validate_package validate_file lookup safe_join_under ensure_under_root
    clean_relative_path is_parent abs is_abs join rel rel_elements clean parse render text_beq split
    has_prefix join_with
validated = refl

validate_packages-Agrees_example : Agrees (skip_a ∷ fetch_b ∷ []) empty_report full_report
validate_packages-Agrees_example =
    validate_packages-Agrees a_env repo out disk pkgs (skip_a ∷ fetch_b ∷ []) empty_report
      full_report planned validated

planned_with_cleanup :
    repo_actions a_env true repo out disk (ok (pkgs, true))
    ≡ ok (skip_a ∷ fetch_b ∷ delete_action (codes "z") 1 ∷ [])
unfolding repo_actions find_deleted deletions is_remote package_actions build_action package_path
    action_at lookup safe_join_under ensure_under_root clean_relative_path is_parent abs is_abs join
    rel rel_elements clean parse render text_beq split has_prefix join_with
planned_with_cleanup = refl

repo_actions-DeletesUnlisted_example :
    All (DeletesUnlisted pkgs) (skip_a ∷ fetch_b ∷ delete_action (codes "z") 1 ∷ [])
repo_actions-DeletesUnlisted_example =
    repo_actions-DeletesUnlisted a_env true repo out disk pkgs true
      (skip_a ∷ fetch_b ∷ delete_action (codes "z") 1 ∷ []) planned_with_cleanup

abbrev a_sync : SyncEnv
a_sync = record {
  registry = [];
  data_dir = codes "/d";
  cwd = none;
  now = 7;
  faults = record {
    on_create_run = no_fault;
    on_update_run = no_fault;
    on_upsert = λ p. no_fault;
    on_delete = λ p. no_fault;
    on_failed_update = λ p. no_fault;
    on_failed_insert = λ p. no_fault;
  };
  run_pool = λ workers jobs. [];
  pool_calls = λ jobs. [];
  plan_disk = λ name d. d;
  pool_disk = λ jobs d. d;
  can_remove = λ p. true;
  error_text = λ e. [];
}

abbrev downloaded : DownloadResult
downloaded = record {
  path = codes "/d/e/9/b";
  size = 2;
  sha256 = codes "bb";
  resumed = false;
  attempts = 1;
}

e_IsName : IsName (codes "e")
e_IsName = record {
  nonempty = λ h. cc h;
  not_dot = λ h. cc h;
  not_dotdot = λ h. cc h;
  lacks = (omega arith, tt);
}

out_of : safe_join_under none (codes "/d") (codes "e/9") ≡ ok out
unfolding safe_join_under ensure_under_root clean_relative_path is_parent abs is_abs join rel
    rel_elements clean parse render text_beq split has_prefix join_with
out_of = refl

built : build_action a_env repo out disk false (a_package (codes "b") (codes "bb")) ≡ ok fetch_b
unfolding build_action package_path action_at lookup safe_join_under ensure_under_root
    clean_relative_path is_parent abs is_abs join rel rel_elements clean parse render text_beq split
    has_prefix join_with
built = refl

d_rooted : is_abs (codes "/d") ≡ true
unfolding is_abs has_prefix
d_rooted = refl

exported_iff_example :
    ((entry_of
        (codes "/d")
        (codes "e")
        (file_record_of a_sync (codes "e") 1 fetch_b downloaded)).abs_path
      ≡ codes "/d/e/9/b")
    ↔ (clean_relative_path (codes "e/9") ≡ ok (codes "e"))
exported_iff_example =
    exported_iff a_env repo disk false (a_package (codes "b") (codes "bb")) fetch_b out a_sync
      (codes "e") 1 downloaded tt d_rooted e_IsName out_of built

-- Two files with their hashes.
abbrev checksums : Map Text
checksums = (codes "oc", codes "ab") ∷ (codes "kb", codes "cd") ∷ []

two_letters :
    (a b : ℕ) → is_space a ≡ false → is_space b ≡ false → a < 128 → b < 128 → IsWord (a ∷ b ∷ [])
two_letters a b s s' h h' = record { nonempty = refl; solid = (s, (s', tt)); ascii = (h, (h', tt)) }

checksums-AreWords : AreWords checksums
checksums-AreWords = (
  (
    two_letters b'o' b'c' refl refl (omega arith) (omega arith),
    two_letters b'a' b'b' refl refl (omega arith) (omega arith),
    omega arith,
  ),
  (
    (
      two_letters b'k' b'b' refl refl (omega arith) (omega arith),
      two_letters b'c' b'd' refl refl (omega arith) (omega arith),
      omega arith,
    ),
    tt,
  ),
)

parse-print_checksums_example :
    parse_checksum_file (print_checksums checksums) ≡ insert_all checksums []
parse-print_checksums_example = parse-print_checksums checksums checksums-AreWords
