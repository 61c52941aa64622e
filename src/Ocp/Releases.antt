-- ===== src/Ocp/Releases.antt =====
-- internal/ocp/clients.go: the releases of a channel, read off the update graph, and their cache. The
-- server, the decoder of its JSON and the clock are parameters; a service has one caller at a time.
pub mod Laws
pub mod Cache
pub mod Again
use ocp_offline.Prelude.{
  ℕ, ◌+◌, ◌*◌, ◌^◌, Text, codes, text_eq, nat_eq, Bool, true, false, not, ◌&&◌, ◌||◌, List, [], ◌∷◌,
  ◌++◌, Option, none, some, Result, ok, err, ◌==◌, ltb, if◌then◌else◌, is_empty, has_prefix, Map,
  lookup, insert, has, Sorter,
}
use ocp_offline.Provider.Epel.Metadata.{HttpReply, lost, answered}
use ocp_offline.Ocp.Semver.{cut, sort_versions}

pub record ReleasesResult : Type 0 where
  pub channel : Text
  pub releases : List Text
  pub latest : Text
  pub previous : Text

pub record GraphNode : Type 0 where
  pub version : Text
  pub metadata : Map Text

-- "stable-4.21" has "4.21."
unfoldable pub minor_prefix : Text → Text
minor_prefix channel = elim (cut 45 channel) [ none ↦ [] | some (kind, rest) ↦ rest ++ 46 ∷ [] ]

-- The loop over the nodes, with the versions seen.
unfoldable pub select_versions : Text → List Text → List GraphNode → List Text
select_versions prefix seen [] = []
select_versions prefix seen (node ∷ nodes) =
    let skipped = select_versions prefix seen nodes in
    let rest = select_versions prefix (node.version ∷ seen) nodes in
    if is_empty node.version || has node.version seen
    then skipped
    else if not (is_empty prefix) && not (has_prefix node.version prefix)
    then rest
    else node.version ∷ rest

-- versions[len(versions)-1]
abbrev pub last_of : List Text → Text
last_of [] = []
last_of (v ∷ []) = v
last_of (v ∷ w ∷ vs) = last_of (w ∷ vs)

-- versions[len(versions)-2]
abbrev pub before_last : List Text → Text
before_last [] = []
before_last (v ∷ []) = []
before_last (v ∷ w ∷ []) = v
before_last (v ∷ w ∷ x ∷ vs) = before_last (w ∷ x ∷ vs)

abbrev pub releases_of : Text → List Text → ReleasesResult
releases_of channel versions = record {
  channel = channel;
  releases = versions;
  latest = last_of versions;
  previous = before_last versions;
}

-- filterAndSortReleases
unfoldable pub filter_and_sort_releases : Sorter → Text → List GraphNode → ReleasesResult
filter_and_sort_releases sorter channel nodes =
    releases_of channel (sort_versions sorter (select_versions (minor_prefix channel) [] nodes))

-- The clock is in nanoseconds, read before and after the request.
pub record GraphEnv : Type 0 where
  pub request : Text → HttpReply
  pub decode_graph : Text → Option (List GraphNode)
  pub start : ℕ
  pub finish : ℕ

pub record GraphEntry : Type 0 where
  pub result : ReleasesResult
  pub expiry : ℕ

pub data FetchError : Type 0 where
  channel_required no_response bad_body no_channels no_entries : FetchError
  bad_status : ℕ → FetchError

abbrev pub graph_url : Text → Text
graph_url channel = codes "https://api.openshift.com/api/upgrades_info/v1/graph?channel=" ++ channel

abbrev pub graph_cache_ttl : ℕ
graph_cache_ttl = 3600 * 10 ^ 9

abbrev pub graph_nodes : GraphEnv → HttpReply → Result FetchError (List GraphNode)
graph_nodes env lost = err no_response
graph_nodes env (answered status none) =
    if status == 200 then err bad_body else err (bad_status status)
graph_nodes env (answered status (some body)) =
    if status == 200
    then elim (env.decode_graph body) [ none ↦ err bad_body | some nodes ↦ ok nodes ]
    else err (bad_status status)

abbrev pub remember :
    Sorter
    → GraphEnv
    → Text
    → Map GraphEntry
    → Result FetchError (List GraphNode)
    → Result FetchError ReleasesResult × Map GraphEntry
remember sorter env channel cache (err e) = (err e, cache)
remember sorter env channel cache (ok nodes) =
    let found = filter_and_sort_releases sorter channel nodes in
    (
      ok found,
      insert channel (record { result = found; expiry = env.finish + graph_cache_ttl }) cache,
    )

-- The entry of a channel that has not expired.
abbrev pub fresh_entry : ℕ → Option GraphEntry → Option ReleasesResult
fresh_entry now none = none
fresh_entry now (some entry) = if ltb now entry.expiry then some entry.result else none

abbrev pub answer :
    Sorter
    → GraphEnv
    → Text
    → Map GraphEntry
    → Option ReleasesResult
    → Result FetchError ReleasesResult × Map GraphEntry
answer sorter env channel cache (some cached) = (ok cached, cache)
answer sorter env channel cache none =
    remember sorter env channel cache (graph_nodes env (env.request (graph_url channel)))

-- FetchReleases
unfoldable pub fetch_releases :
    Sorter → GraphEnv → Text → Map GraphEntry → Result FetchError ReleasesResult × Map GraphEntry
fetch_releases sorter env channel cache =
    if is_empty channel
    then (err channel_required, cache)
    else answer sorter env channel cache (fresh_entry env.start (lookup channel cache))
