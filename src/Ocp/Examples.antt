-- ===== src/Ocp/Examples.antt =====
-- The theorems about internal/ocp at concrete inputs.
use ocp_offline.Prelude.{
  ◌≡◌, refl, Text, codes, text_eq, text_beq, true, false, List, [], ◌∷◌, some, ok, lookup, insert,
  has_prefix, has, insertion, sort_by, insert_sorted, text_lt, arith, parse_int, unsigned, digits,
  atoi_or_zero, syntax_error,
}
use ocp_offline.Safety.Path.Split.{split, extend}
use ocp_offline.Provider.Epel.Metadata.{HttpReply, lost, answered}
use ocp_offline.Provider.Ocp.Checksums.{fields_from, blanked, wide_space}
use ocp_offline.Ocp.Semver.{cut, split_n, parse_semver, semver_less, sort_versions}
use ocp_offline.Ocp.Semver.Numbers.{semver_less-prerelease}
use ocp_offline.Ocp.Releases.{
  GraphNode, GraphEnv, select_versions, minor_prefix, filter_and_sort_releases, fetch_releases,
}
use ocp_offline.Ocp.Releases.Laws.{Newest, filter_and_sort_releases-Newest}
use ocp_offline.Ocp.Releases.Cache.{IsServed, fetch_all, fetch_releases-Sound}
use ocp_offline.Ocp.Tracks.{cut_last, split_path, base, without_ext, entry_channel, group_channels}
use ocp_offline.Ocp.Tracks.Laws.{IsGrouping, group_channels-IsGrouping}
use ocp_offline.Ocp.Manifest.{
  ManifestResult, classify_artifact, parse_manifest, by_name, fetch_manifest,
}
use ocp_offline.Ocp.Manifest.Laws.{IsManifest, fetch_manifest-IsManifest}

abbrev node : Text → GraphNode
node v = record { version = v; metadata = [] }

abbrev nodes : List GraphNode
nodes =
    node (codes "4.9.10")
    ∷ node (codes "4.10.0")
    ∷ node (codes "4.9.2")
    ∷ node (codes "4.9.10")
    ∷ []

abbrev stable : Text
stable = codes "stable-4.9"

releases :
    (filter_and_sort_releases insertion stable nodes).releases ≡ codes "4.9.2" ∷ codes "4.9.10" ∷ []
unfolding filter_and_sort_releases sort_versions sort_by insert_sorted semver_less parse_semver
    split_n cut select_versions minor_prefix has text_beq has_prefix atoi_or_zero parse_int unsigned
    digits
releases = refl

filter_and_sort_releases-Newest_example : Newest (filter_and_sort_releases insertion stable nodes)
filter_and_sort_releases-Newest_example = filter_and_sort_releases-Newest insertion stable nodes

abbrev a_graph : GraphEnv
a_graph = record {
  request = λ url. answered 200 (some url);
  decode_graph = λ body. some nodes;
  start = 0;
  finish = 5;
}

-- A call whose result is remembered, and one that gets no response and finds it.
abbrev first_call : GraphEnv
first_call = record a_graph { finish = 10 }

abbrev last_call : GraphEnv
last_call = record a_graph { request = λ url. lost; start = 20; finish = 21 }

remembered :
    (fetch_releases insertion last_call stable
      (fetch_all insertion ((stable, first_call) ∷ []) [])).0
    ≡ ok (filter_and_sort_releases insertion stable nodes)
unfolding fetch_all fetch_releases lookup insert text_beq
remembered = refl

fetch_releases-Sound_example :
    IsServed insertion
      ((stable, first_call) ∷ [])
      stable
      last_call
      (filter_and_sort_releases insertion stable nodes)
fetch_releases-Sound_example =
    fetch_releases-Sound insertion ((stable, first_call) ∷ []) stable last_call
      (filter_and_sort_releases insertion stable nodes) remembered

no_number : parse_int (codes "0-rc.1") ≡ syntax_error
unfolding parse_int unsigned digits
no_number = refl

no_number' : parse_int (codes "0-rc.2") ≡ syntax_error
unfolding parse_int unsigned digits
no_number' = refl

semver_less-prerelease_example : semver_less (codes "4.22.0-rc.1") (codes "4.22.0-rc.2") ≡ false
semver_less-prerelease_example =
    semver_less-prerelease (codes "4") (codes "22") (codes "0-rc.1") (codes "0-rc.2") (omega arith)
      (omega arith) no_number no_number'

-- A name without an extension loses its minor version.
without_extension :
    entry_channel (record { regular = true; name = codes "channels/stable-4.21" })
    ≡ some (codes "stable-4")
unfolding entry_channel split_path base without_ext cut_last text_beq
without_extension = refl

abbrev channels : List Text
channels =
    codes "fast-4.9" ∷ codes "stable-4.9" ∷ codes "stable-4.10" ∷ codes "x" ∷ codes "a-1" ∷ []

group_channels-IsGrouping_example : IsGrouping channels (group_channels insertion channels)
group_channels-IsGrouping_example = group_channels-IsGrouping insertion channels

abbrev sums : Text
sums = codes "ab  *oc.tar.gz\ncd  kb\n\n"

abbrev serve : Text → HttpReply
serve url = answered 200 (some sums)

abbrev base_url : Text
base_url = codes "https://mirror.openshift.com/pub/openshift-v4/clients/ocp/4.9.2"

abbrev a_manifest : ManifestResult
a_manifest = record {
  version = codes "4.9.2";
  checksums = (codes "oc.tar.gz", codes "ab") ∷ (codes "kb", codes "cd") ∷ [];
  artifacts =
      classify_artifact (codes "kb") base_url (codes "cd")
      ∷ classify_artifact (codes "oc.tar.gz") base_url (codes "ab")
      ∷ [];
}

served : fetch_manifest insertion serve (codes "4.9.2") ≡ ok a_manifest
unfolding fetch_manifest parse_manifest fields_from blanked wide_space split extend insert text_beq
    sort_by insert_sorted by_name text_lt classify_artifact
served = refl

fetch_manifest-IsManifest_example : IsManifest (codes "4.9.2") a_manifest
fetch_manifest-IsManifest_example =
    fetch_manifest-IsManifest insertion serve (codes "4.9.2") a_manifest served
