-- ===== src/Engine/Sync/Reconfigure/Examples.antt =====
-- The reconfiguration of internal/engine/sync.go at concrete inputs.
use ocp_offline.Prelude.{
  ◌≡◌, refl, Text, codes, text_eq, text_beq, Bool, true, false, List, [], ◌∷◌, none, some, Map,
  insert,
}
use ocp_offline.Config.{boolean, RawConfig, provider_enabled}
use ocp_offline.Store.Models.{ProviderConfig}
use ocp_offline.Engine.Sync.Reconfigure.{
  object, nil_map, ReconfigureEnv, raw_providers, reconfigure,
}
use ocp_offline.Engine.Sync.Reconfigure.Enabled.{stored_flag, reconfigure-flag}

-- Every text decodes to an object with an entry of its own.
abbrev a_env : ReconfigureEnv
a_env = record {
  make = λ kind. none;
  configure = λ p raw. some p;
  decode = λ t. object ((codes "enabled", boolean false) ∷ []);
}

abbrev config_of : Text → Bool → ProviderConfig
config_of name enabled = record {
  id = 0;
  name = name;
  kind = codes "epel";
  enabled = enabled;
  config_json = codes "{}";
  created_at = 0;
  updated_at = 0;
}

abbrev configs : List ProviderConfig
configs = config_of (codes "p") true ∷ config_of (codes "q") false ∷ []

abbrev decoded : Map RawConfig
decoded =
    (codes "p", (codes "enabled", boolean true) ∷ [])
    ∷ (codes "q", (codes "enabled", boolean false) ∷ [])
    ∷ []

reconfigured : (reconfigure a_env configs []).1 ≡ some decoded
unfolding reconfigure raw_providers insert text_beq
reconfigured = refl

-- A stored `null` makes the write panic.
null_panics : (reconfigure (record a_env { decode = λ t. nil_map }) configs []).1 ≡ none
unfolding reconfigure raw_providers
null_panics = refl

reconfigure-flag_example :
    provider_enabled decoded (codes "p") ≡ stored_flag a_env (codes "p") configs false
reconfigure-flag_example = reconfigure-flag a_env configs [] decoded (codes "p") reconfigured
