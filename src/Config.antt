-- ===== src/Config.antt =====
-- internal/config/config.go: the defaults, the search for the file, and the `enabled` entry of a
-- provider. The YAML decoder is not under the model: a value it decodes is a boolean or another.
use ocp_offline.Prelude.{
  Text, codes, text_eq, Bool, true, false, List, [], ◌∷◌, Option, none, some, Map, lookup,
  if◌then◌else◌,
}
use ocp_offline.Safety.Path.{join}

pub data RawValue : Type 0 where
  boolean : Bool → RawValue
  text : Text → RawValue
  other : RawValue

-- ProviderConfig, the raw entries
abbrev pub RawConfig : Type 0
RawConfig = Map RawValue

pub record ServerConfig : Type 0 where
  pub listen : Text
  pub data_dir : Text
  pub db_path : Text

pub record ExportConfig : Type 0 where
  pub split_size : Text
  pub compression : Text
  pub output_dir : Text
  pub manifest_name : Text

pub record ScheduleConfig : Type 0 where
  pub enabled : Bool
  pub default_cron : Text

pub record Config : Type 0 where
  pub server : ServerConfig
  pub export : ExportConfig
  pub schedule : ScheduleConfig
  pub providers : Map RawConfig

-- DefaultConfig
unfoldable pub default_config : Config
default_config = record {
  server = record {
    listen = codes "0.0.0.0:8080";
    data_dir = codes "/var/lib/airgap";
    db_path = [];
  };
  export = record {
    split_size = codes "25GB";
    compression = codes "zstd";
    output_dir = codes "/mnt/transfer-disk";
    manifest_name = codes "airgap-manifest.json";
  };
  schedule = record { enabled = true; default_cron = codes "0 2 * * 0" };
  providers = [];
}

abbrev pub is_true : Option RawValue → Bool
is_true (some (boolean b)) = b
is_true o = false

abbrev pub is_enabled : Option RawConfig → Bool
is_enabled none = false
is_enabled (some pc) = is_true (lookup (codes "enabled") pc)

-- ProviderEnabled
unfoldable pub provider_enabled : Map RawConfig → Text → Bool
provider_enabled providers name = is_enabled (lookup name providers)

-- ProviderDataDir
unfoldable pub provider_data_dir : Config → Text → Text
provider_data_dir c relative_dir = join c.server.data_dir relative_dir

unfoldable pub first_existing : (Text → Bool) → List Text → Option Text
first_existing exists [] = none
first_existing exists (p ∷ ps) =
    let rest = first_existing exists ps in if exists p then some p else rest

abbrev pub search_paths : Option Text → List Text
search_paths none = codes "airgap.yaml" ∷ codes "/etc/airgap/airgap.yaml" ∷ []
search_paths (some home) =
    codes "airgap.yaml"
    ∷ codes "/etc/airgap/airgap.yaml"
    ∷ join (join (join home (codes ".config")) (codes "airgap")) (codes "airgap.yaml")
    ∷ []

-- FindConfigFile, where the home directory may not be known
unfoldable pub find_config_file : (Text → Bool) → Option Text → Option Text
find_config_file exists home = first_existing exists (search_paths home)
