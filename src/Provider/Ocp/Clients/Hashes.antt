-- ===== src/Provider/Ocp/Clients/Hashes.antt =====
-- Every artifact of a manifest has a hash.
use mathlib.Core.Option.{some_inj}
use ocp_offline.Prelude.{
  ℕ, Text, text_eq, false, List, [], ◌∷◌, ◌++◌, foldl, some, Result, ok, err, >>=-eq-ok,
  ok-injective, ◌≡◌, refl, ◌∙◌, arith, ◌==◌, if◌then◌else◌, is_empty, All, All-keep, Map, insert,
  has, subst, sum_by, sum_by-perm, Sorter, Bool-cases, inl, inr,
}
use ocp_offline.Safety.Path.Split.{split}
use ocp_offline.Provider.Epel.Metadata.{HttpReply}
use ocp_offline.Provider.Ocp.{OcpEnv}
use ocp_offline.Provider.Ocp.Checksums.{is_space, add_word, fields_from, blanked, fields}
use ocp_offline.Ocp.Releases.{FetchError}
use ocp_offline.Ocp.Manifest.{
  ClientArtifact, ManifestResult, add_line, without_star, parse_manifest, classify_artifact,
  classify_all, by_name, listed_manifest, fetch_manifest, reply_body, manifest_url, base_of,
  platform, filter_artifacts,
}
use ocp_offline.Provider.Ocp.Clients.{ClientsConfig, for_platforms, version_artifacts}

abbrev NonEmpty : Text → Type 0
NonEmpty w = is_empty w ≡ false

add_word-NonEmpty :
    (w : Text) (words : List Text) → All NonEmpty words → All NonEmpty (add_word w words)
add_word-NonEmpty [] words h = h
add_word-NonEmpty (c ∷ w) words h = (refl, h)

fields_from-NonEmpty : (word s : Text) → All NonEmpty (fields_from word s)
unfolding fields_from
fields_from-NonEmpty word [] = add_word-NonEmpty word [] tt
fields_from-NonEmpty word (c ∷ s) = elim (Bool-cases (is_space c)) [
  | inl e ↦ rw e (add_word-NonEmpty word (fields_from [] s) (fields_from-NonEmpty [] s))
  | inr e ↦ rw e (fields_from-NonEmpty (word ++ c ∷ []) s)
]

abbrev AreHashed : Map Text → Type 0
AreHashed = All (λ (e : Text × Text). NonEmpty e.1)

insert-AreHashed :
    (file hash : Text) (files : Map Text)
    → NonEmpty hash
    → AreHashed files
    → AreHashed (insert file hash files)
unfolding insert
insert-AreHashed file hash [] n h = (n, tt)
insert-AreHashed file hash ((at, old) ∷ files) n (o, h) = elim (Bool-cases (at == file)) [
  | inl e ↦ rw e (n, h)
  | inr e ↦ rw e (o, insert-AreHashed file hash files n h)
]

add_line-AreHashed :
    (fields : List Text) (files : Map Text)
    → All NonEmpty fields
    → AreHashed files
    → AreHashed (add_line fields files)
add_line-AreHashed [] files n h = h
add_line-AreHashed (hash ∷ []) files n h = h
add_line-AreHashed (hash ∷ file ∷ more) files n h =
    insert-AreHashed (without_star file) hash files n.0 h

parse_lines-AreHashed :
    (lines : List Text) (files : Map Text)
    → AreHashed files
    → AreHashed (foldl (λ files line. add_line (fields line) files) files lines)
parse_lines-AreHashed [] files h = h
parse_lines-AreHashed (line ∷ lines) files h =
    parse_lines-AreHashed lines _
      (add_line-AreHashed (fields line) files (fields_from-NonEmpty [] (blanked 0 line)) h)

abbrev pub HasHash : ClientArtifact → Type 0
HasHash a = is_empty a.checksum ≡ false

abbrev lacks_hash : ClientArtifact → ℕ
lacks_hash a = if is_empty a.checksum then 1 else 0

classify_all-hashes :
    (base : Text) (files : Map Text)
    → AreHashed files
    → sum_by lacks_hash (classify_all base files) ≡ 0
unfolding classify_artifact
classify_all-hashes base [] h = refl
classify_all-hashes base ((file, hash) ∷ files) (n, h) =
    ground (arith, n, classify_all-hashes base files h)

none_lacks :
    (artifacts : List ClientArtifact) → sum_by lacks_hash artifacts ≡ 0 → All HasHash artifacts
none_lacks [] h = tt
none_lacks (a ∷ artifacts) h = elim (Bool-cases (is_empty a.checksum)) [
  | inl e ↦ absurd (ground (arith, e))
  | inr e ↦ (e, none_lacks artifacts (ground (arith, e)))
]

listed_manifest-hashes :
    (sorter : Sorter) (version : Text) (files : Map Text) (m : ManifestResult)
    → AreHashed files
    → listed_manifest sorter version files ≡ ok m
    → All HasHash m.artifacts
listed_manifest-hashes sorter version [] m h e = absurd (cc e)
listed_manifest-hashes sorter version (f ∷ fs) m h e =
    let all = classify_all (base_of version) (f ∷ fs) in
    subst (λ (r : ManifestResult). All HasHash r.artifacts) (ok-injective e)
      (none_lacks _ (
        sum_by-perm lacks_hash (sorter.permutes by_name all)
        ∙ classify_all-hashes (base_of version) (f ∷ fs) h))

fetch_manifest-hashes :
    (sorter : Sorter) (request : Text → HttpReply) (version : Text) (m : ManifestResult)
    → fetch_manifest sorter request version ≡ ok m
    → All HasHash m.artifacts
unfolding fetch_manifest parse_manifest
fetch_manifest-hashes sorter request version m h =
    let (body, e, k) = >>=-eq-ok (reply_body (request (manifest_url version))) _ h in
    listed_manifest-hashes sorter version _ m (parse_lines-AreHashed (split 10 body) [] tt) k

filter_artifacts-hashes :
    (artifacts : List ClientArtifact) (platforms : List Text)
    → All HasHash artifacts
    → All HasHash (filter_artifacts artifacts platforms)
unfolding filter_artifacts
filter_artifacts-hashes artifacts [] h = h
filter_artifacts-hashes artifacts (p ∷ ps) h =
    All-keep HasHash (λ a. has (platform a) (p ∷ ps)) artifacts h

-- The artifacts that the provider looks at all have a hash.
pub version_artifacts-hashes :
    (sorter : Sorter) (env : OcpEnv) (cfg : ClientsConfig) (version : Text)
    (artifacts : List ClientArtifact)
    → version_artifacts sorter env cfg version ≡ some artifacts
    → All HasHash artifacts
unfolding version_artifacts
version_artifacts-hashes sorter env cfg version artifacts h =
    picked (fetch_manifest sorter env.request version) h
      (λ m e. fetch_manifest-hashes sorter env.request version m e)
  where
    picked :
        (r : Result FetchError ManifestResult)
        → for_platforms cfg.platforms r ≡ some artifacts
        → ((m : ManifestResult) → r ≡ ok m → All HasHash m.artifacts)
        → All HasHash artifacts
    picked (err e) h k = absurd (cc h)
    picked (ok m) h k =
        subst (All HasHash) (some_inj.0 h)
          (filter_artifacts-hashes m.artifacts cfg.platforms (k m refl))
