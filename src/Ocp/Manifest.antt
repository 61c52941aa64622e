-- ===== src/Ocp/Manifest.antt =====
-- internal/ocp/clients.go: the manifest of a version, read off its sha256sum.txt, and the filter of its
-- artifacts. The server is a parameter; the reader's limit is part of its answer.
pub mod Platforms
pub mod Laws
use ocp_offline.Prelude.{
  ℕ, Text, codes, text_eq, nat_eq, Bool, true, false, not, ◌&&◌, ◌||◌, List, [], ◌∷◌, ◌++◌, map,
  foldl, Option, none, some, Result, ok, err, ◌>>=◌, ◌==◌, if◌then◌else◌, is_empty, has_prefix,
  keep, Map, insert, has, Sorter, text_lt,
}
use ocp_offline.Safety.Path.Split.{split}
use ocp_offline.Provider.Epel.Metadata.{HttpReply, lost, answered}
use ocp_offline.Provider.Ocp.Checksums.{fields, contains, lower}
use ocp_offline.Ocp.Releases.{FetchError, no_response, bad_body, bad_status, no_entries}

pub record ClientArtifact : Type 0 where
  pub name : Text
  pub url : Text
  pub os : Text
  pub arch : Text
  pub kind : Text
  pub checksum : Text

pub record ManifestResult : Type 0 where
  pub version : Text
  pub checksums : Map Text
  pub artifacts : List ClientArtifact

abbrev pub os_of : Text → Text
os_of file =
    if contains file (codes "-mac") || contains file (codes "-darwin")
    then codes "mac"
    else if contains file (codes "-windows")
    then codes "windows"
    else codes "linux"

abbrev pub arch_of : Text → Text
arch_of file =
    if contains file (codes "-arm64")
    then codes "arm64"
    else if contains file (codes "-ppc64le")
    then codes "ppc64le"
    else if contains file (codes "-s390x")
    then codes "s390x"
    else codes "amd64"

abbrev pub artifact_kind : Text → Text
artifact_kind file =
    if has_prefix file (codes "openshift-client")
    then codes "client"
    else if has_prefix file (codes "openshift-install")
    then codes "installer"
    else if has_prefix file (codes "ccoctl")
    then codes "ccoctl"
    else if has_prefix file (codes "opm")
    then codes "opm"
    else if has_prefix file (codes "oc-mirror")
    then codes "oc-mirror"
    else codes "other"

-- classifyArtifact
unfoldable pub classify_artifact : Text → Text → Text → ClientArtifact
classify_artifact file base checksum = record {
  name = file;
  url = base ++ 47 ∷ file;
  os = os_of (lower file);
  arch = arch_of (lower file);
  kind = artifact_kind (lower file);
  checksum = checksum;
}

-- strings.TrimPrefix(file, "*")
abbrev pub without_star : Text → Text
without_star [] = []
without_star (c ∷ file) = if c == b'*' then file else c ∷ file

-- The loop's body, on the fields of a line.
abbrev pub add_line : List Text → Map Text → Map Text
add_line (hash ∷ file ∷ more) files = insert (without_star file) hash files
add_line fields files = files

-- ParseChecksumFile
unfoldable pub parse_manifest : Text → Map Text
parse_manifest content = foldl (λ files line. add_line (fields line) files) [] (split 10 content)

abbrev pub platform : ClientArtifact → Text
platform a = if not (a.arch == codes "amd64") then a.os ++ 45 ∷ a.arch else a.os

-- FilterArtifactsByPlatform
unfoldable pub filter_artifacts : List ClientArtifact → List Text → List ClientArtifact
filter_artifacts artifacts [] = artifacts
filter_artifacts artifacts (p ∷ ps) = keep (λ a. has (platform a) (p ∷ ps)) artifacts

abbrev pub mirror_base : Text
mirror_base = codes "https://mirror.openshift.com/pub/openshift-v4/clients/ocp"

abbrev pub base_of : Text → Text
base_of version = mirror_base ++ 47 ∷ version

abbrev pub manifest_url : Text → Text
manifest_url version = base_of version ++ codes "/sha256sum.txt"

abbrev pub classify_all : Text → Map Text → List ClientArtifact
classify_all base = map (λ (entry : Text × Text). classify_artifact entry.0 base entry.1)

unfoldable pub by_name : ClientArtifact → ClientArtifact → Bool
by_name a b = text_lt a.name b.name

abbrev pub listed_manifest : Sorter → Text → Map Text → Result FetchError ManifestResult
listed_manifest sorter version [] = err no_entries
listed_manifest sorter version (entry ∷ entries) = ok (record {
  version = version;
  checksums = entry ∷ entries;
  artifacts = sorter.run by_name (classify_all (base_of version) (entry ∷ entries));
})

abbrev pub reply_body : HttpReply → Result FetchError Text
reply_body lost = err no_response
reply_body (answered status none) = if status == 200 then err bad_body else err (bad_status status)
reply_body (answered status (some body)) =
    if status == 200 then ok body else err (bad_status status)

-- FetchManifest
unfoldable pub fetch_manifest :
    Sorter → (Text → HttpReply) → Text → Result FetchError ManifestResult
fetch_manifest sorter request version = reply_body (request (manifest_url version)) >>= λ body.
    listed_manifest sorter version (parse_manifest body)
