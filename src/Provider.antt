-- ===== src/Provider.antt =====
-- internal/provider/provider.go: the plans of providers, the reports of syncs, and the registry. A
-- provider is what the engine asks of it: its type, and what its `Plan` and its `Validate` return.
-- The headers of a download and the timestamps are not modelled.
pub mod Agreement
pub mod Epel
pub mod Ocp
mod Examples
use ocp_offline.Prelude.{
  ℕ, Text, Bool, List, Option, Result, Map, lookup, insert, delete, keys, if◌then◌else◌,
}

pub data ActionType : Type 0 where
  download delete_file skip update : ActionType

pub record SyncAction : Type 0 where
  pub path : Text
  pub local_path : Text
  pub action : ActionType
  pub size : ℕ
  pub checksum : Text
  pub reason : Text
  pub url : Text

pub record SyncPlan : Type 0 where
  pub provider : Text
  pub actions : List SyncAction
  pub total_size : ℕ
  pub total_files : ℕ

pub record SyncOptions : Type 0 where
  pub dry_run : Bool
  pub force : Bool
  pub max_workers : ℕ
  pub retry_count : ℕ

pub record FailedFile : Type 0 where
  pub path : Text
  pub url : Text
  pub error : Text
  pub attempts : ℕ

pub record SyncReport : Type 0 where
  pub provider : Text
  pub start_time : ℕ
  pub end_time : ℕ
  pub downloaded : ℕ
  pub deleted : ℕ
  pub skipped : ℕ
  pub failed : List FailedFile
  pub bytes_transferred : ℕ

pub record ValidationResult : Type 0 where
  pub path : Text
  pub local_path : Text
  pub expected : Text
  pub actual : Text
  pub valid : Bool
  pub size : ℕ
  pub url : Text

pub record ValidationReport : Type 0 where
  pub provider : Text
  pub total_files : ℕ
  pub valid_files : ℕ
  pub invalid_files : List ValidationResult

pub record Provider : Type 0 where
  pub name : Text
  pub kind : Text
  pub takes_name : Bool
  pub plan : Result Text SyncPlan
  pub validation : Result Text ValidationReport

abbrev pub Registry : Type 0
Registry = Map Provider

-- Register
unfoldable pub register : Provider → Registry → Registry
register p r = insert p.name p r

-- RegisterAs: a provider that is a NameSetter takes the name
unfoldable pub register_as : Text → Provider → Registry → Registry
register_as name p r = insert name (if p.takes_name then record p { name = name } else p) r

-- Get
unfoldable pub get_provider : Text → Registry → Option Provider
get_provider name r = lookup name r

-- Remove
unfoldable pub remove_provider : Text → Registry → Registry
remove_provider name r = delete name r

-- Names, in the order in which the map is ranged over
unfoldable pub provider_names : Registry → List Text
provider_names r = keys r
