-- ===== src/Provider/Ocp/Rhcos.antt =====
-- internal/provider/ocp/rhcos.go, which repeats binaries.go for another name and another section of the
-- settings with the same fields.
use ocp_offline.Prelude.{ℕ, Text, codes, Bool, Option, none, Result, Map}
use ocp_offline.Safety.Http.{Url}
use ocp_offline.Provider.{SyncPlan, SyncReport, ValidationReport}
use ocp_offline.Provider.Ocp.{OcpEnv, OcpConfig, OcpError, plan_ocp, validate_ocp}
use ocp_offline.Provider.Ocp.Configured.{ConfigureError, configure_ocp, sync_stub}

-- RHCOSProvider, after its Configure: the name that it registers under and its settings.
pub record RhcosProvider : Type 0 where
  pub name : Text
  pub cfg : Option OcpConfig

-- NewRHCOSProvider
abbrev pub new_rhcos : RhcosProvider
new_rhcos = record { name = codes "rhcos"; cfg = none }

-- SetName
abbrev pub set_rhcos_name : Text → RhcosProvider → RhcosProvider
set_rhcos_name name p = record p { name = name }

-- Configure
abbrev pub configure_rhcos :
    (Text → Option Url) → Option OcpConfig → RhcosProvider → Option ConfigureError × RhcosProvider
configure_rhcos parse_url decoded p =
    let (error, cfg) = configure_ocp parse_url decoded p.cfg in (error, record p { cfg = cfg })

-- `Plan` of the provider
abbrev pub plan_rhcos : OcpEnv → RhcosProvider → Map Text → Result OcpError SyncPlan
plan_rhcos env p disk = plan_ocp env p.name p.cfg disk

-- Sync
abbrev pub sync_rhcos : RhcosProvider → Bool → ℕ → ℕ → SyncPlan → Result OcpError SyncReport
sync_rhcos p dry start end' plan = sync_stub p.name p.cfg dry start end' plan

-- Validate
abbrev pub validate_rhcos : OcpEnv → RhcosProvider → Map Text → Result OcpError ValidationReport
validate_rhcos env p disk = validate_ocp env p.name p.cfg disk
