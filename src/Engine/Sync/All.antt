-- ===== src/Engine/Sync/All.antt =====
-- internal/engine/sync.go: SyncAll and ValidateAll, which have the same loop. The context is a
-- parameter: whether it is done once a provider is.
pub mod Coverage
use ocp_offline.Prelude.{
  ℕ, Text, text_eq, Bool, true, false, List, [], ◌∷◌, Option, none, some, Result, ok, err,
  if◌then◌else◌, Map, insert,
}
use ocp_offline.Config.{RawConfig, provider_enabled}
use ocp_offline.Provider.{
  SyncOptions, SyncReport, ValidationReport, Provider, Registry, get_provider, provider_names,
}
use ocp_offline.Engine.Sync.Base.{SyncEnv, SyncState, SyncError}
use ocp_offline.Engine.Sync.{sync_provider}

pub data AllError : Type 0 where
  some_failed all_cancelled : AllError

-- The reports so far, whether a provider failed, and whether the context was done.
pub record Gathered (R S : Type 0) : Type 0 where
  pub reports : Map R
  pub has_errors : Bool
  pub is_cancelled : Bool
  pub state : S

module _ {E R S : Type 0} (run : Text → S → Result E R × S) (enabled is_done : Text → Bool) where
  -- What the report or the error of a provider does.
  abbrev pub gather : Text → Result E R × S → Gathered R S → Gathered R S
  gather name (err e, st) g = record g { has_errors = true; state = st }
  gather name (ok r, st) g = record g {
    reports = insert name r g.reports;
    is_cancelled = is_done name;
    state = st;
  }

  -- The body of the loop.
  unfoldable pub gather_one : Text → Gathered R S → Gathered R S
  gather_one name g = if enabled name then gather name (run name g.state) g else g

  -- The loop, which a context that is done ends.
  unfoldable pub gather_all : List Text → Gathered R S → Gathered R S
  gather_all [] g = g
  gather_all (name ∷ names) g =
      let g' = gather_one name g in
      let rest = gather_all names g' in if g'.is_cancelled then g' else rest

abbrev pub start_gathering : {R S : Type 0} → S → Gathered R S
start_gathering st = record { reports = []; has_errors = false; is_cancelled = false; state = st }

-- The error that is returned with the reports.
abbrev pub gathered_error : {R S : Type 0} → Gathered R S → Option AllError
gathered_error g =
    if g.is_cancelled then some all_cancelled else if g.has_errors then some some_failed else none

-- SyncAll
unfoldable pub sync_all :
    SyncEnv
    → Map RawConfig
    → SyncOptions
    → (Text → Bool)
    → SyncState
    → Gathered SyncReport SyncState
sync_all env providers opts is_done st =
    gather_all (λ name. sync_provider env name opts) (provider_enabled providers) is_done
      (provider_names env.registry) (start_gathering st)

pub data ValidationError : Type 0 where
  unknown_provider : ValidationError
  validation_failed : Text → ValidationError

abbrev pub validated : Option Provider → Result ValidationError ValidationReport
validated none = err unknown_provider
validated (some p) = elim p.validation [ err e ↦ err (validation_failed e) | ok r ↦ ok r ]

-- ValidateProvider
unfoldable pub validate_provider : Registry → Text → Result ValidationError ValidationReport
validate_provider registry name = validated (get_provider name registry)

-- ValidateAll
unfoldable pub validate_all_providers :
    Registry → Map RawConfig → (Text → Bool) → Gathered ValidationReport Unit
validate_all_providers registry providers is_done =
    gather_all (λ name st. (validate_provider registry name, st)) (provider_enabled providers)
      is_done (provider_names registry) (start_gathering tt)
