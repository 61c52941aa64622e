-- ===== src/Engine/Sync/Reconfigure.antt =====
-- internal/engine/sync.go: ReconfigureProviders, which rebuilds the registry and the configuration
-- from the stored configs. The factory, the providers' `Configure` and the JSON decoder are
-- parameters. A write to a nil map, which panics, is `none`.
pub mod Enabled
mod Examples
use ocp_offline.Prelude.{
  ℕ, Text, codes, text_eq, Bool, true, false, not, List, [], ◌∷◌, Option, none, some, if◌then◌else◌,
  Map, insert, foldl,
}
use ocp_offline.Config.{RawValue, boolean, RawConfig}
use ocp_offline.Provider.{Provider, Registry, register_as, remove_provider, provider_names}
use ocp_offline.Store.Models.{ProviderConfig}

-- What decoding a stored config into a map gives: an error, the nil map of `null`, or an object.
pub data Decoded : Type 0 where
  undecodable nil_map : Decoded
  object : RawConfig → Decoded

pub record ReconfigureEnv : Type 0 where
  pub make : Text → Option Provider
  pub configure : Provider → Option RawConfig → Option Provider
  pub decode : Text → Decoded

abbrev pub register_configured : Text → Option Provider → Registry → Registry
register_configured name none r = r
register_configured name (some p) r = register_as name p r

abbrev pub register_made : ReconfigureEnv → Text → Option Provider → Decoded → Registry → Registry
register_made env name none d r = r
register_made env name (some p) undecodable r = r
register_made env name (some p) nil_map r = register_configured name (env.configure p none) r
register_made env name (some p) (object raw) r =
    register_configured name (env.configure p (some raw)) r

-- The body of the loop that makes the providers.
unfoldable pub register_config : ReconfigureEnv → ProviderConfig → Registry → Registry
register_config env pc r =
    if not pc.enabled
    then r
    else register_made env pc.name (env.make pc.kind) (env.decode pc.config_json) r

unfoldable pub new_registry : ReconfigureEnv → List ProviderConfig → Registry
new_registry env configs = foldl (λ r pc. register_config env pc r) [] configs

abbrev pub all_entries : Registry → Registry → Registry
all_entries [] r = r
all_entries ((name, p) ∷ entries) r = all_entries entries (register_as name p r)

-- The registry is emptied and filled again in place.
unfoldable pub swap_registry : Registry → Registry → Registry
swap_registry fresh old =
    all_entries fresh (foldl (λ r name. remove_provider name r) old (provider_names old))

abbrev pub enable_decoded : ProviderConfig → Decoded → Map RawConfig → Option (Map RawConfig)
enable_decoded pc undecodable m = some m
enable_decoded pc nil_map m = none
enable_decoded pc (object raw) m =
    some (insert pc.name (insert (codes "enabled") (boolean pc.enabled) raw) m)

abbrev pub then_providers :
    (Map RawConfig → Option (Map RawConfig)) → Option (Map RawConfig) → Option (Map RawConfig)
then_providers rest none = none
then_providers rest (some m) = rest m

-- The raw configs with their `enabled` entry.
unfoldable pub raw_providers :
    ReconfigureEnv → List ProviderConfig → Map RawConfig → Option (Map RawConfig)
raw_providers env [] m = some m
raw_providers env (pc ∷ pcs) m =
    then_providers (raw_providers env pcs) (enable_decoded pc (env.decode pc.config_json) m)

-- ReconfigureProviders, where a factory is set
unfoldable pub reconfigure :
    ReconfigureEnv → List ProviderConfig → Registry → Registry × Option (Map RawConfig)
reconfigure env configs old =
    (swap_registry (new_registry env configs) old, raw_providers env configs [])
