-- ===== src/Engine/Sync/Reconfigure/Enabled.antt =====
-- What is enabled after the providers are reconfigured.
use ocp_offline.Prelude.{
  ◌≡◌, refl, ap, ◌∙◌, Text, codes, text_eq, text_beq_iff, Bool, true, false, List, [], ◌∷◌, Option,
  none, some, if◌then◌else◌, ◌==◌, Map, insert, lookup, lookup-insert, Bool-cases, inl, inr,
}
use ocp_offline.Config.{boolean, RawConfig, provider_enabled}
use ocp_offline.Provider.{Registry}
use ocp_offline.Store.Models.{ProviderConfig}
use ocp_offline.Engine.Sync.Reconfigure.{
  Decoded, undecodable, nil_map, object, ReconfigureEnv, enable_decoded, then_providers,
  raw_providers, reconfigure,
}

abbrev pub is_object : Decoded → Bool
is_object (object raw) = true
is_object d = false

-- The flag of the last stored config of this name that is an object, or else what was before.
unfoldable pub stored_flag : ReconfigureEnv → Text → List ProviderConfig → Bool → Bool
stored_flag env name [] before = before
stored_flag env name (pc ∷ pcs) before = stored_flag env name pcs (
    if is_object (env.decode pc.config_json)
    then (if pc.name == name then pc.enabled else before)
    else before)

enabled-insert :
    (pc : ProviderConfig) (raw : RawConfig) (m : Map RawConfig) (name : Text)
    → provider_enabled (insert pc.name (insert (codes "enabled") (boolean pc.enabled) raw) m) name
      ≡ (if pc.name == name then pc.enabled else provider_enabled m name)
unfolding provider_enabled
enabled-insert pc raw m name =
    let self : (codes "enabled" == codes "enabled") ≡ true =
      (text_beq_iff (codes "enabled") (codes "enabled")).1 refl in
    elim (Bool-cases (pc.name == name)) [
      | inl e ↦
          rw
            (
              lookup-insert pc.name name (insert (codes "enabled") (boolean pc.enabled) raw) m,
              e,
              lookup-insert (codes "enabled") (codes "enabled") (boolean pc.enabled) raw,
              self,
            )
            refl
      | inr e ↦
          rw (lookup-insert pc.name name (insert (codes "enabled") (boolean pc.enabled) raw) m, e)
            refl
    ]

enable_decoded-flag :
    (pc : ProviderConfig) (d : Decoded) (m m' : Map RawConfig) (name : Text)
    → enable_decoded pc d m ≡ some m'
    → provider_enabled m' name ≡ (
        if is_object d
        then (if pc.name == name then pc.enabled else provider_enabled m name)
        else provider_enabled m name)
enable_decoded-flag pc undecodable m m' name h = let same : m ≡ m' = cc in rw (← same) refl
enable_decoded-flag pc nil_map m m' name h = absurd (cc h)
enable_decoded-flag pc (object raw) m m' name h =
    let same : insert pc.name (insert (codes "enabled") (boolean pc.enabled) raw) m ≡ m' = cc in
    rw (← same) (enabled-insert pc raw m name)

then_providers-some :
    (rest : Map RawConfig → Option (Map RawConfig)) (o : Option (Map RawConfig))
    (m' : Map RawConfig)
    → then_providers rest o ≡ some m'
    → (m : Map RawConfig) × (o ≡ some m) × (rest m ≡ some m')
then_providers-some rest none m' h = absurd (cc h)
then_providers-some rest (some m) m' h = (m, refl, h)

raw_providers-flag :
    (env : ReconfigureEnv) (name : Text) (pcs : List ProviderConfig) (m m' : Map RawConfig)
    → raw_providers env pcs m ≡ some m'
    → provider_enabled m' name ≡ stored_flag env name pcs (provider_enabled m name)
unfolding raw_providers stored_flag
raw_providers-flag env name [] m m' h = let same : m ≡ m' = cc in rw (← same) refl
raw_providers-flag env name (pc ∷ pcs) m m' h =
    let (n, e, k) =
      then_providers-some (raw_providers env pcs) (enable_decoded pc (env.decode pc.config_json) m)
        m' h in
    raw_providers-flag env name pcs n m' k
    ∙ ap (λ b. stored_flag env name pcs b)
        (enable_decoded-flag pc (env.decode pc.config_json) m n name e)

-- Reconfiguring, where it does not panic, enables a provider exactly if the last stored config of its
-- name whose JSON is an object says so, and disables every other one; what was configured before is
-- of no matter.
pub reconfigure-flag :
    (env : ReconfigureEnv) (configs : List ProviderConfig) (old : Registry) (m : Map RawConfig)
    (name : Text)
    → (reconfigure env configs old).1 ≡ some m
    → provider_enabled m name ≡ stored_flag env name configs false
unfolding reconfigure
reconfigure-flag env configs old m name h =
    raw_providers-flag env name configs [] m h
    ∙ ap (λ b. stored_flag env name configs b) (unfold provider_enabled lookup in refl)
