-- ===== src/Store/Configs.antt =====
-- The provider configuration operations of internal/store/sqlite.go. The JSON encoder is a
-- parameter: `none` is its error.
pub mod Laws
use ocp_offline.Prelude.{
  ℕ, zero, suc, Text, codes, Bool, true, false, not, ◌||◌, ◌&&◌, List, [], ◌∷◌, Option, none, some,
  Result, ok, err, ◌≡◌, refl, nat_eq, text_eq, ◌==◌, if◌then◌else◌, ltb, length, sort_by, text_lt,
  Map, lookup,
}
use ocp_offline.Store.Models.{ProviderConfig}
use ocp_offline.Store.Table.{
  Row, Table, Fault, no_fault, at_exec, after_exec, StoreError, not_found, exec_failed, exec,
  affected, query, update_where, count_where, first_where, delete_where, insert_row, has_key,
}

pub with_id-id : (n : ℕ) (a : ProviderConfig) → (record a { id = n }).id ≡ n
with_id-id n a = refl

instance abbrev pub config_row : Row ProviderConfig
config_row = record {
  key = λ a. a.id;
  with_key = λ n a. record a { id = n };
  key-with_key = with_id-id;
}

abbrev pub named : Text → ProviderConfig → Bool
named name pc = pc.name == name

-- CreateProviderConfig, at the time of the database: a name that is taken is refused by UNIQUE(name)
unfoldable pub create_provider_config :
    Fault → ℕ → ProviderConfig → Table ProviderConfig → Result StoreError ℕ × Table ProviderConfig
create_provider_config fault now pc t =
    if ltb 0 (count_where (named pc.name) t.rows)
    then (err exec_failed, t)
    else exec fault t (insert_row (record pc { created_at = now; updated_at = now }))

-- GetProviderConfig
unfoldable pub get_provider_config :
    Fault → Text → Table ProviderConfig → Result StoreError ProviderConfig
get_provider_config fault name t = elim (query fault (first_where (named name) t.rows)) [
  | ok none ↦ err not_found
  | ok (some pc) ↦ ok pc
  | err e ↦ err not_found
]

-- ListProviderConfigs, by name
unfoldable pub list_provider_configs :
    Fault → Table ProviderConfig → Result StoreError (List ProviderConfig)
list_provider_configs fault t =
    query fault (sort_by (λ (a b : ProviderConfig). text_lt a.name b.name) t.rows)

-- Another row holds the name.
abbrev pub name_clash : ProviderConfig → ProviderConfig → Bool
name_clash pc other = if other.id == pc.id then false else other.name == pc.name

-- UpdateProviderConfig, at the time of the database; UNIQUE(name) refuses the name of another row
unfoldable pub update_provider_config :
    Fault
    → ℕ
    → ProviderConfig
    → Table ProviderConfig
    → Result StoreError (Unit {0}) × Table ProviderConfig
update_provider_config fault now pc t =
    if ltb 0 (count_where (has_key pc.id) t.rows) && ltb 0 (count_where (name_clash pc) t.rows)
    then (err exec_failed, t)
    else affected (
        exec fault t (λ s. (
          count_where (has_key pc.id) s.rows,
          record s {
            rows =
                update_where (has_key pc.id)
                  (λ old. record old {
                    name = pc.name;
                    kind = pc.kind;
                    enabled = pc.enabled;
                    config_json = pc.config_json;
                    updated_at = now;
                  })
                  s.rows;
          },
        )))

-- DeleteProviderConfig
unfoldable pub delete_provider_config :
    Fault → Text → Table ProviderConfig → Result StoreError (Unit {0}) × Table ProviderConfig
delete_provider_config fault name t = affected (
    exec fault t (λ s.
      (count_where (named name) s.rows, record s { rows = delete_where (named name) s.rows })))

-- ToggleProviderConfig, at the time of the database
unfoldable pub toggle_provider_config :
    Fault → ℕ → Text → Table ProviderConfig → Result StoreError (Unit {0}) × Table ProviderConfig
toggle_provider_config fault now name t = affected (
    exec fault t (λ s. (
      count_where (named name) s.rows,
      record s {
        rows =
            update_where (named name)
              (λ pc. record pc { enabled = not pc.enabled; updated_at = now }) s.rows;
      },
    )))

-- CountProviderConfigs
unfoldable pub count_provider_configs : Fault → Table ProviderConfig → Result StoreError ℕ
count_provider_configs fault t = query fault (length t.rows)

-- The types that SeedProviderConfigs knows.
abbrev pub known_types : List Text
known_types =
    codes "epel"
    ∷ codes "ocp_binaries"
    ∷ codes "ocp_clients"
    ∷ codes "rhcos"
    ∷ codes "container_images"
    ∷ codes "registry"
    ∷ codes "custom_files"
    ∷ []

unfoldable pub is_one_of : Text → List Text → Bool
is_one_of s [] = false
is_one_of s (t ∷ ts) = s == t || is_one_of s ts

abbrev pub seeded_type : Text → Text
seeded_type name = if is_one_of name known_types then name else codes "custom_files"

-- A YAML provider: its `enabled` entry where that is a boolean, and its JSON text.
pub record YamlProvider : Type 0 where
  pub enabled : Option Bool
  pub json : Option Text

abbrev seed_row : Text → Bool → Text → ProviderConfig
seed_row name enabled json = record {
  id = 0;
  name = name;
  kind = seeded_type name;
  enabled = enabled;
  config_json = json;
  created_at = 0;
  updated_at = 0;
}

abbrev or_false : Option Bool → Bool
or_false none = false
or_false (some b) = b

-- One provider of the loop: an encoder error or a failed insert is logged, and the loop goes on.
unfoldable pub seed_one :
    (Text → Fault) → ℕ → Text → YamlProvider → Table ProviderConfig → Table ProviderConfig
seed_one faults now name raw t = elim raw.json [
  | none ↦ t
  | some json ↦
      (create_provider_config (faults name) now (seed_row name (or_false raw.enabled) json) t).1
]

unfoldable pub seed_all :
    (Text → Fault) → ℕ → Map YamlProvider → Table ProviderConfig → Table ProviderConfig
seed_all faults now [] t = t
seed_all faults now ((name, raw) ∷ rest) t =
    seed_all faults now rest (seed_one faults now name raw t)

-- SeedProviderConfigs: a fault for the count, and one for the insert of each name
unfoldable pub seed_provider_configs :
    Fault
    → (Text → Fault)
    → ℕ
    → Map YamlProvider
    → Table ProviderConfig
    → Result StoreError (Unit {0}) × Table ProviderConfig
seed_provider_configs fault faults now providers t = elim (count_provider_configs fault t) [
  | err e ↦ (err e, t)
  | ok zero ↦ (ok tt, seed_all faults now providers t)
  | ok (suc n) ↦ (ok tt, t)
]
