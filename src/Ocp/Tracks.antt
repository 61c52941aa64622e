-- ===== src/Ocp/Tracks.antt =====
-- internal/ocp/clients.go: the channels in the graph-data archive, by the type of track, and their
-- cache. The server, gzip and tar are parameters; package path is modelled on ASCII names.
pub mod Groups
pub mod Laws
pub mod Entries
use ocp_offline.Prelude.{
  ℕ, ◌+◌, ◌*◌, ◌^◌, Text, codes, text_eq, nat_eq, Bool, true, false, not, ◌&&◌, List, [], ◌∷◌, ◌++◌,
  map, Option, none, some, Result, ok, err, ◌==◌, ltb, if◌then◌else◌, is_empty, ℤ, pos, lt_int,
  ParsedInt, parsed, parse_int, Map, lookup, insert, delete, keys, Sorter, text_lt,
}
use ocp_offline.Provider.Epel.Metadata.{HttpReply, lost, answered, trim_right}
use ocp_offline.Ocp.Semver.{cut, split_n}
use ocp_offline.Ocp.Releases.{FetchError, no_response, bad_body, no_channels, bad_status}

pub record TrackGroup : Type 0 where
  pub kind : Text
  pub channels : List Text

pub record TracksResult : Type 0 where
  pub groups : List TrackGroup

abbrev pub cut_after : ℕ → ℕ → Text → Option (Text × Text) → Option (Text × Text)
cut_after sep c s none = if c == sep then some ([], s) else none
cut_after sep c s (some (a, b)) = some (c ∷ a, b)

-- The texts in front of and behind the last separator: strings.LastIndex with the two slices.
unfoldable pub cut_last : ℕ → Text → Option (Text × Text)
cut_last sep [] = none
cut_last sep (c ∷ s) = cut_after sep c s (cut_last sep s)

abbrev pub split_at : Text → Option (Text × Text) → Text × Text
split_at name none = ([], name)
split_at name (some (a, b)) = (a ++ 47 ∷ [], b)

abbrev pub front_of : Text → Option (Text × Text) → Text
front_of name none = name
front_of name (some (a, b)) = a

-- path.Split
unfoldable pub split_path : Text → Text × Text
unfolding cut_last
split_path name = split_at name (cut_last 47 name)

-- path.Base
unfoldable pub base : Text → Text
unfolding cut_last
base dir =
    let (front, last) = split_at (trim_right dir) (cut_last 47 (trim_right dir)) in
    if is_empty dir then codes "." else if is_empty last then codes "/" else last

-- strings.TrimSuffix(name, path.Ext(name)), for a name without slashes
unfoldable pub without_ext : Text → Text
unfolding cut_last
without_ext name = front_of name (cut_last 46 name)

-- A header of the archive: whether it is a regular file, and its name.
pub record TarEntry : Type 0 where
  pub regular : Bool
  pub name : Text

abbrev pub channel_at : Text × Text → Option Text
channel_at (dir, name) =
    if base dir == codes "channels" && not (is_empty name) then some (without_ext name) else none

unfoldable pub entry_channel : TarEntry → Option Text
unfolding split_path base without_ext
entry_channel entry = if entry.regular then channel_at (split_path entry.name) else none

abbrev pub add_found : Option Text → List Text → List Text
add_found none channels = channels
add_found (some channel) channels = channel ∷ channels

unfoldable pub entry_channels : List TarEntry → List Text
unfolding entry_channel
entry_channels [] = []
entry_channels (entry ∷ entries) = add_found (entry_channel entry) (entry_channels entries)

abbrev pub some_channels : List Text → Result FetchError (List Text)
some_channels [] = err no_channels
some_channels (c ∷ cs) = ok (c ∷ cs)

-- extractChannelsFromTarball, on the entries if all can be read
unfoldable pub extract_channels : Option (List TarEntry) → Result FetchError (List Text)
unfolding entry_channels
extract_channels none = err bad_body
extract_channels (some entries) = some_channels (entry_channels entries)

abbrev pub parsed_or_zero : ParsedInt → ℤ
parsed_or_zero (parsed n) = n
parsed_or_zero failed = pos 0

abbrev pub second_number : List Text → ℤ
second_number (a ∷ b ∷ more) = parsed_or_zero (parse_int b)
second_number parts = pos 0

-- channelMinor
unfoldable pub channel_minor : Text → ℤ
channel_minor channel = elim (cut_last 45 channel) [
  | none ↦ pos 0
  | some (a, b) ↦ second_number (split_n 46 2 b)
]

abbrev pub kind_of : Text → Option Text
kind_of channel = elim (cut 45 channel) [ none ↦ none | some (kind, rest) ↦ some kind ]

abbrev pub or_nil : Option (List Text) → List Text
or_nil none = []
or_nil (some chs) = chs

-- groups[t]
abbrev pub group_at : Text → Map (List Text) → List Text
group_at t groups = or_nil (lookup t groups)

abbrev pub add_channel : Text → Option Text → Map (List Text) → Map (List Text)
add_channel channel none groups = groups
add_channel channel (some t) groups = insert t (group_at t groups ++ channel ∷ []) groups

-- The loop over the channels.
unfoldable pub add_channels : List Text → Map (List Text) → Map (List Text)
add_channels [] groups = groups
add_channels (channel ∷ channels) groups =
    add_channels channels (add_channel channel (kind_of channel) groups)

unfoldable pub newer : Text → Text → Bool
newer a b = lt_int (channel_minor b) (channel_minor a)

unfoldable pub sort_groups : Sorter → Map (List Text) → Map (List Text)
sort_groups sorter = map (λ (entry : Text × List Text). (entry.0, sorter.run newer entry.1))

abbrev pub type_order : List Text
type_order = codes "stable" ∷ codes "fast" ∷ codes "eus" ∷ codes "candidate" ∷ []

abbrev pub track : Text → List Text → TrackGroup
track t chs = record { kind = t; channels = chs }

-- The groups with a type that may have one, from those without it and those behind it.
abbrev pub with_group :
    Text
    → Option (List Text)
    → List TrackGroup × Map (List Text)
    → List TrackGroup × Map (List Text)
    → List TrackGroup × Map (List Text)
with_group t none skipped taken = skipped
with_group t (some chs) skipped (found, rest) = (track t chs ∷ found, rest)

-- The loop over the types in their order: the groups, and the ones that are left.
unfoldable pub ordered_groups : List Text → Map (List Text) → List TrackGroup × Map (List Text)
ordered_groups [] groups = ([], groups)
ordered_groups (t ∷ ts) groups =
    with_group t (lookup t groups) (ordered_groups ts groups) (ordered_groups ts (delete t groups))

-- The groups of the types that are left, by name.
abbrev pub remaining_groups : Sorter → Map (List Text) → List TrackGroup
remaining_groups sorter groups =
    map (λ t. track t (group_at t groups)) (sorter.run text_lt (keys groups))

abbrev pub all_groups : Sorter → List TrackGroup × Map (List Text) → List TrackGroup
all_groups sorter (found, rest) = found ++ remaining_groups sorter rest

-- groupChannels
unfoldable pub group_channels : Sorter → List Text → TracksResult
group_channels sorter channels = record {
  groups =
      all_groups sorter (ordered_groups type_order (sort_groups sorter (add_channels channels [])));
}

-- The clock is in nanoseconds, read before and after the request.
pub record TracksEnv : Type 0 where
  pub request : Text → HttpReply
  pub read_tar : Text → Option (List TarEntry)
  pub start : ℕ
  pub finish : ℕ

pub record TracksCache : Type 0 where
  pub result : TracksResult
  pub ttl : ℕ

abbrev pub graph_data_url : Text
graph_data_url = codes "https://api.openshift.com/api/upgrades_info/graph-data"

abbrev pub tracks_cache_ttl : ℕ
tracks_cache_ttl = 12 * 3600 * 10 ^ 9

abbrev pub reply_channels : TracksEnv → HttpReply → Result FetchError (List Text)
reply_channels env lost = err no_response
reply_channels env (answered status none) =
    if status == 200 then err bad_body else err (bad_status status)
reply_channels env (answered status (some body)) =
    if status == 200 then extract_channels (env.read_tar body) else err (bad_status status)

abbrev pub remember_tracks :
    Sorter
    → TracksEnv
    → Option TracksCache
    → Result FetchError (List Text)
    → Result FetchError TracksResult × Option TracksCache
remember_tracks sorter env cache (err e) = (err e, cache)
remember_tracks sorter env cache (ok channels) =
    let found = group_channels sorter channels in
    (ok found, some (record { result = found; ttl = env.finish + tracks_cache_ttl }))

abbrev pub request_tracks :
    Sorter → TracksEnv → Option TracksCache → Result FetchError TracksResult × Option TracksCache
request_tracks sorter env cache =
    remember_tracks sorter env cache (reply_channels env (env.request graph_data_url))

-- FetchTracks
unfoldable pub fetch_tracks :
    Sorter → TracksEnv → Option TracksCache → Result FetchError TracksResult × Option TracksCache
fetch_tracks sorter env none = request_tracks sorter env none
fetch_tracks sorter env (some cache) =
    if ltb env.start cache.ttl
    then (ok cache.result, some cache)
    else request_tracks sorter env (some cache)
