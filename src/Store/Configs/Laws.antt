-- ===== src/Store/Configs/Laws.antt =====
-- The provider configurations.
use ocp_offline.Prelude.{
  ℕ, ◌≡◌, Text, not, List, [], ◌∷◌, ok, err, arith, nat_eq, text_eq, ◌==◌, if◌then◌else◌,
  text_beq_iff,
}
use mathlib.Core.Option
use ocp_offline.Store.Models.{ProviderConfig}
use ocp_offline.Store.Table.{
  Table, no_fault, first_where, update_where, count_where, affected-state,
}
use ocp_offline.Store.Configs.{named, toggle_provider_config, get_provider_config}

abbrev toggled : ℕ → ProviderConfig → ProviderConfig
toggled now pc = record pc { enabled = not pc.enabled; updated_at = now }

first-toggle :
    (now : ℕ) (name other : Text) (xs : List ProviderConfig)
    → first_where (named other) (update_where (named name) (toggled now) xs) ≡ (
        if name == other
        then Option.map (toggled now) (first_where (named other) xs)
        else first_where (named other) xs)
unfolding first_where update_where
first-toggle now name other [] = ground arith
first-toggle now name other (x ∷ xs) = ground (
  arith,
  first-toggle now name other xs,
  text_beq_iff x.name name,
  text_beq_iff x.name other,
  text_beq_iff name other,
)

toggle_state :
    (now : ℕ) (name : Text) (t : Table ProviderConfig)
    → (toggle_provider_config no_fault now name t).1
      ≡ record t { rows = update_where (named name) (toggled now) t.rows }
unfolding toggle_provider_config
toggle_state now name t = affected-state (count_where (named name) t.rows) _

-- A toggle flips the enabled state of the provider that it names, stamps the time, and leaves every
-- other provider as it was.
pub get-toggle :
    (now : ℕ) (name other : Text) (t : Table ProviderConfig)
    → get_provider_config no_fault other (toggle_provider_config no_fault now name t).1 ≡ (
        if name == other
        then elim (get_provider_config no_fault other t) [
          | err e ↦ err e
          | ok pc ↦ ok (record pc { enabled = not pc.enabled; updated_at = now })
        ]
        else get_provider_config no_fault other t)
unfolding get_provider_config
get-toggle now name other t =
    rw (toggle_state now name t) (ground (arith, first-toggle now name other t.rows))
