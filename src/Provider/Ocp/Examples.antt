-- ===== src/Provider/Ocp/Examples.antt =====
-- The theorems about internal/provider/ocp at concrete inputs.
use ocp_offline.Prelude.{
  ℕ, ◌≡◌, ◌↔◌, ◌⊎◌, ◌||◌, refl, Text, codes, text_eq, text_beq, true, List, [], ◌∷◌, none, some, ok,
  lookup, insert, if◌then◌else◌, has_prefix, has, occurrences, IsSorted, insertion, sort_by,
  insert_sorted, text_lt, arith,
}
use ocp_offline.Safety.Path.{
  safe_join_under, ensure_under_root, clean_relative_path, is_parent, abs, is_abs, join, rel,
  rel_elements, clean,
}
use ocp_offline.Safety.Path.Resolve.{parse, render}
use ocp_offline.Safety.Path.Split.{split, extend, join_with}
use ocp_offline.Safety.Path.Confined.{IsName}
use ocp_offline.Download.Pool.{Job}
use ocp_offline.Provider.{download, SyncPlan, ValidationReport}
use ocp_offline.Provider.Agreement.{Agrees}
use ocp_offline.Provider.Epel.Metadata.{lost, answered}
use ocp_offline.Engine.Sync.Actions.{download_jobs, is_fetch, count_actions}
use ocp_offline.Ocp.Semver.{cut, semver_less, sort_versions}
use ocp_offline.Ocp.Releases.{GraphEnv, fetch_releases}
use ocp_offline.Ocp.Manifest.{
  parse_manifest, classify_artifact, by_name, filter_artifacts, fetch_manifest,
}
use ocp_offline.Provider.Ocp.{
  OcpEnv, OcpConfig, file_action, invalid_file, ocp_action_at, file_path, file_actions,
  version_dirs, build_sync_plan, remote_files, plan_versions, plan_ocp, ocp_validate_at,
}
use ocp_offline.Provider.Ocp.Checksums.{
  fields_from, blanked, wide_space, scan_lines, contains, parse_checksum_file, filter_files,
}
use ocp_offline.Provider.Ocp.Synced.{plan_ocp-sync_iff}
use ocp_offline.Provider.Ocp.Clients.{
  ClientsConfig, with_defaults, add_versions, resolve_channels, resolve_versions, plan_artifact,
  artifact_actions, version_artifacts, client_actions, plan_versions_of, plan_clients,
  validate_artifacts, validate_clients_at, validate_clients,
}
use ocp_offline.Provider.Ocp.Clients.Versions.{listed_releases, resolve_versions-occurrences}
use ocp_offline.Provider.Ocp.Clients.Agreement.{blank_report, validate_clients-Agrees}
use ocp_offline.Provider.Ocp.Clients.Synced.{synced_iff}

-- The hash of a text is the text; every sha256sum.txt lists two files.
abbrev env : OcpEnv
env = record {
  cwd = none;
  data_dir = codes "/d";
  request = λ url. answered 200 (some (codes "ab  oc\ncd  kb-mac\n"));
  can_stat = λ p. true;
  can_read = λ p. true;
  hash = λ t. t;
}

abbrev graph : ℕ → GraphEnv
graph n = record { request = λ url. lost; decode_graph = λ body. none; start = n; finish = n }

-- The settings of the provider with nothing but a version.
abbrev cfg : ClientsConfig
cfg = record {
  channels = codes "stable-4.9" ∷ [];
  versions = codes "4.9" ∷ [];
  platforms = codes "linux" ∷ codes "linux-arm64" ∷ [];
  output_dir = codes "ocp-clients";
}

defaults : with_defaults (record cfg { platforms = []; output_dir = [] }) ≡ cfg
unfolding with_defaults
defaults = refl

abbrev ocp_clients : Text
ocp_clients = codes "ocp_clients"

abbrev client_plan : SyncPlan
client_plan = record {
  provider = ocp_clients;
  actions =
      file_action (codes "4.9/oc") (codes "/d/ocp-clients/4.9/oc") (codes "ab")
        (codes "https://mirror.openshift.com/pub/openshift-v4/clients/ocp/4.9/oc") download 0
        (codes "new file")
      ∷ [];
  total_size = 0;
  total_files = 1;
}

planned : (plan_clients insertion graph env ocp_clients (some cfg) [] []).0 ≡ ok client_plan
unfolding plan_clients resolve_versions resolve_channels fetch_releases add_versions sort_versions
    sort_by insert_sorted has lookup plan_versions_of client_actions version_artifacts
    filter_artifacts fetch_manifest parse_manifest fields_from blanked wide_space scan_lines
    contains classify_artifact by_name text_lt artifact_actions plan_artifact ocp_action_at
    file_path insert text_beq split extend has_prefix safe_join_under ensure_under_root
    clean_relative_path is_parent abs is_abs join rel rel_elements clean parse render join_with cut
planned = refl

abbrev client_report : ValidationReport
client_report = record {
  provider = ocp_clients;
  total_files = 1;
  valid_files = 0;
  invalid_files =
      invalid_file (codes "4.9/oc") (codes "/d/ocp-clients/4.9/oc") (codes "ab") (codes "missing") 0
        (codes "https://mirror.openshift.com/pub/openshift-v4/clients/ocp/4.9/oc")
      ∷ [];
}

validated : (validate_clients insertion graph env ocp_clients (some cfg) [] []).0 ≡ ok client_report
unfolding validate_clients resolve_versions resolve_channels fetch_releases add_versions
    sort_versions sort_by insert_sorted has lookup validate_clients_at version_artifacts
    filter_artifacts fetch_manifest parse_manifest fields_from blanked wide_space scan_lines
    contains classify_artifact by_name text_lt validate_artifacts ocp_validate_at insert text_beq
    split extend has_prefix safe_join_under ensure_under_root clean_relative_path is_parent abs
    is_abs join rel rel_elements clean parse render join_with cut
validated = refl

validate_clients-Agrees_example :
    Agrees client_plan.actions (blank_report ocp_clients) client_report
validate_clients-Agrees_example =
    validate_clients-Agrees insertion graph env ocp_clients cfg [] [] client_plan client_report
      planned validated

resolve_versions-occurrences_example :
    ((v : Text)
      → occurrences v (resolve_versions insertion graph cfg []).0 ≡ (
          if has v (listed_releases insertion graph 0 cfg.channels []) || has v cfg.versions
          then 1
          else 0))
    × IsSorted semver_less (resolve_versions insertion graph cfg []).0
resolve_versions-occurrences_example = resolve_versions-occurrences insertion graph cfg []

d_rooted : is_abs (codes "/d") ≡ true
unfolding is_abs has_prefix
d_rooted = refl

clients_IsName : IsName (codes "ocp-clients")
clients_IsName = record {
  nonempty = λ h. cc h;
  not_dot = λ h. cc h;
  not_dotdot = λ h. cc h;
  lacks = omega arith;
}

name_IsName : IsName ocp_clients
name_IsName = record {
  nonempty = λ h. cc h;
  not_dot = λ h. cc h;
  not_dotdot = λ h. cc h;
  lacks = omega arith;
}

cleaned : clean_relative_path (codes "ocp-clients") ≡ ok (codes "ocp-clients")
unfolding clean_relative_path is_parent is_abs clean parse render text_beq split has_prefix
    join_with
cleaned = refl

root_of : safe_join_under none (codes "/d") ocp_clients ≡ ok (codes "/d/ocp_clients")
unfolding safe_join_under ensure_under_root clean_relative_path is_parent abs is_abs join rel
    rel_elements clean parse render text_beq split has_prefix join_with
root_of = refl

-- With the default output directory, a provider that has its default name cannot be synced.
synced_iff_example :
    ((jobs : List Job) × (download_jobs none (codes "/d/ocp_clients") client_plan.actions
        ≡ ok jobs))
    ↔ ((codes "ocp-clients" ≡ ocp_clients) ⊎ (count_actions is_fetch client_plan.actions ≡ 0))
unfolding join_with
synced_iff_example =
    synced_iff insertion env ocp_clients cfg [] tt d_rooted (codes "ocp-clients") []
      (clients_IsName, tt) cleaned graph [] client_plan (codes "/d/ocp_clients") name_IsName root_of
      planned

-- The settings of the example file, for one version.
abbrev binaries : OcpConfig
binaries = record {
  base_url = codes "h/";
  versions = codes "4.17" ∷ [];
  ignored_patterns = codes "mac" ∷ [];
  output_dir = codes "ocp-clients";
}

abbrev binaries_plan : SyncPlan
binaries_plan = record {
  provider = codes "ocp_binaries";
  actions =
      file_action (codes "4.17/oc") (codes "/d/ocp-clients/4.17/oc") (codes "ab")
        (codes "h/4.17/oc") download 0 (codes "new file")
      ∷ [];
  total_size = 0;
  total_files = 1;
}

planned_binaries : plan_ocp env (codes "ocp_binaries") (some binaries) [] ≡ ok binaries_plan
unfolding plan_ocp plan_versions remote_files build_sync_plan version_dirs file_actions file_path
    ocp_action_at parse_checksum_file filter_files fields_from blanked wide_space scan_lines
    contains lookup insert text_beq split extend has_prefix safe_join_under ensure_under_root
    clean_relative_path is_parent abs is_abs join rel rel_elements clean parse render join_with
planned_binaries = refl

binaries_IsName : IsName (codes "ocp_binaries")
binaries_IsName = record {
  nonempty = λ h. cc h;
  not_dot = λ h. cc h;
  not_dotdot = λ h. cc h;
  lacks = omega arith;
}

binaries_root :
    safe_join_under none (codes "/d") (codes "ocp_binaries") ≡ ok (codes "/d/ocp_binaries")
unfolding safe_join_under ensure_under_root clean_relative_path is_parent abs is_abs join rel
    rel_elements clean parse render text_beq split has_prefix join_with
binaries_root = refl

plan_ocp-sync_iff_example :
    ((jobs : List Job) × (download_jobs none (codes "/d/ocp_binaries") binaries_plan.actions
        ≡ ok jobs))
    ↔ ((codes "ocp-clients" ≡ codes "ocp_binaries")
        ⊎ (count_actions is_fetch binaries_plan.actions ≡ 0))
unfolding join_with
plan_ocp-sync_iff_example =
    plan_ocp-sync_iff env binaries (codes "ocp_binaries") [] (codes "ocp-clients") [] binaries_plan
      (codes "/d/ocp_binaries") tt d_rooted (clients_IsName, tt) cleaned binaries_IsName
      binaries_root planned_binaries
