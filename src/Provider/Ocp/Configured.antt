-- ===== src/Provider/Ocp/Configured.antt =====
-- internal/provider/ocp: Configure and the stub Sync of the three providers. The decoder of the settings
-- and the parser of URLs are parameters; a sync gets the time at which it starts and ends.
use ocp_offline.Prelude.{
  ℕ, ◌+◌, ◌≡◌, Text, Bool, List, [], ◌∷◌, Option, none, some, Result, ok, err, if◌then◌else◌, arith,
}
use ocp_offline.Safety.Http.{Url, UrlError, validate_http_url}
use ocp_offline.Provider.{
  ActionType, download, delete_file, skip, update, SyncAction, SyncPlan, SyncReport,
}
use ocp_offline.Engine.Sync.Actions.{is_fetch, is_skip, is_delete, count_actions}
use ocp_offline.Provider.Ocp.{OcpConfig, OcpError, not_configured}
use ocp_offline.Provider.Ocp.Clients.{ClientsConfig, with_defaults}

pub data ConfigureError : Type 0 where
  bad_config : ConfigureError
  invalid_base_url : UrlError → ConfigureError

abbrev pub url_result : Result UrlError Url → Option ConfigureError
url_result (ok u) = none
url_result (err e) = some (invalid_base_url e)

-- Configure: the error, and the settings that the provider then has. They are kept where the URL is
-- refused.
unfoldable pub configure_ocp :
    (Text → Option Url)
    → Option OcpConfig
    → Option OcpConfig
    → Option ConfigureError × Option OcpConfig
configure_ocp parse_url none old = (some bad_config, old)
configure_ocp parse_url (some cfg) old =
    (url_result (validate_http_url parse_url cfg.base_url), some cfg)

-- Configure of the provider of clients
unfoldable pub configure_clients :
    Option ClientsConfig → Option ClientsConfig → Option ConfigureError × Option ClientsConfig
configure_clients none old = (some bad_config, old)
configure_clients (some cfg) old = (none, some (with_defaults cfg))

abbrev pub count_kind : ActionType → ℕ → SyncReport → SyncReport
count_kind skip size r = record r { skipped = r.skipped + 1 }
count_kind download size r = record r {
  downloaded = r.downloaded + 1;
  bytes_transferred = r.bytes_transferred + size;
}
count_kind update size r = record r {
  downloaded = r.downloaded + 1;
  bytes_transferred = r.bytes_transferred + size;
}
count_kind delete_file size r = record r { deleted = r.deleted + 1 }

-- The loop over the actions.
unfoldable pub count_all : List SyncAction → SyncReport → SyncReport
count_all [] r = r
count_all (a ∷ as') r = count_all as' (count_kind a.action a.size r)

abbrev pub new_report : Text → ℕ → ℕ → SyncReport
new_report name start end' = record {
  provider = name;
  start_time = start;
  end_time = end';
  downloaded = 0;
  deleted = 0;
  skipped = 0;
  failed = [];
  bytes_transferred = 0;
}

-- Sync, which downloads nothing
unfoldable pub sync_stub :
    {C : Type 0} → Text → Option C → Bool → ℕ → ℕ → SyncPlan → Result OcpError SyncReport
sync_stub name none dry start end' plan = err not_configured
sync_stub name (some cfg) dry start end' plan = ok (
    if dry then new_report name start end' else count_all plan.actions (new_report name start end'))

-- What the loop adds to the counts of a report.
abbrev pub Counted : List SyncAction → SyncReport → SyncReport → Type 0
Counted as' r r' =
    (r'.downloaded ≡ r.downloaded + count_actions is_fetch as')
    × (r'.skipped ≡ r.skipped + count_actions is_skip as')
    × (r'.deleted ≡ r.deleted + count_actions is_delete as')

-- Every action is counted under its kind.
pub count_all-Counted : (as' : List SyncAction) (r : SyncReport) → Counted as' r (count_all as' r)
unfolding count_all count_actions
count_all-Counted [] r = (omega arith, omega arith, omega arith)
count_all-Counted (a ∷ as') r =
    counted a.action (count_all-Counted as' (count_kind a.action a.size r))
  where
    counted :
        (k : ActionType)
        → Counted as' (count_kind k a.size r) (count_all as' (count_kind k a.size r))
        → ((count_all as' (count_kind k a.size r)).downloaded
            ≡ r.downloaded + ((if is_fetch k then 1 else 0) + count_actions is_fetch as'))
          × ((count_all as' (count_kind k a.size r)).skipped
              ≡ r.skipped + ((if is_skip k then 1 else 0) + count_actions is_skip as'))
          × ((count_all as' (count_kind k a.size r)).deleted
              ≡ r.deleted + ((if is_delete k then 1 else 0) + count_actions is_delete as'))
    counted download (d, s, x) = (omega (arith, d), omega (arith, s), omega (arith, x))
    counted update (d, s, x) = (omega (arith, d), omega (arith, s), omega (arith, x))
    counted skip (d, s, x) = (omega (arith, d), omega (arith, s), omega (arith, x))
    counted delete_file (d, s, x) = (omega (arith, d), omega (arith, s), omega (arith, x))
