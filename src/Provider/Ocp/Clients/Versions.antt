-- ===== src/Provider/Ocp/Clients/Versions.antt =====
-- Which versions the provider syncs.
use ocp_offline.Prelude.{
  ℕ, suc, Text, text_eq, text_beq_iff, Bool, true, false, ◌||◌, List, [], ◌∷◌, ◌++◌, Result, ok,
  err, ◌≡◌, refl, ap, ◌∙◌, arith, ◌==◌, if◌then◌else◌, Map, has, occurrences, sum_by-append,
  sum_by-perm, Sorter, IsSorted, Bool-cases, inl, inr,
}
use ocp_offline.Ocp.Semver.{semver_less, sort_versions}
use ocp_offline.Ocp.Semver.Order.{semver_less-StrictWeakOrder}
use ocp_offline.Ocp.Releases.{ReleasesResult, GraphEnv, GraphEntry, FetchError, fetch_releases}
use ocp_offline.Provider.Ocp.Clients.{
  ClientsConfig, add_versions, add_releases, resolve_channels, resolve_versions,
}

-- Every element is listed once.
abbrev Unique : List Text → Type 0
Unique vs = (v : Text) → occurrences v vs ≡ (if has v vs then 1 else 0)

has-append : (v : Text) (xs ys : List Text) → has v (xs ++ ys) ≡ has v xs || has v ys
unfolding has
has-append v [] ys = refl
has-append v (x ∷ xs) ys = ground (arith, has-append v xs ys)

one-Unique : (x : Text) (acc : List Text) → Unique acc → has x acc ≡ false → Unique (acc ++ x ∷ [])
unfolding has
one-Unique x acc h n v = ground (
  arith,
  text_beq_iff x v,
  has-append v acc (x ∷ []),
  sum_by-append (λ y. if y == v then 1 else 0) acc (x ∷ []),
  h v,
)

pick-Unique : (b : Bool) (xs ys : List Text) → Unique xs → Unique ys → Unique (if b then xs else ys)
pick-Unique true xs ys h k = h
pick-Unique false xs ys h k = k

-- What is added is added once.
add_versions-has :
    (v : Text) (vs acc : List Text) → has v (add_versions vs acc) ≡ has v acc || has v vs
unfolding add_versions has
add_versions-has v [] acc = ground arith
add_versions-has v (x ∷ vs) acc = elim (Bool-cases (has x acc)) [
  | inl e ↦ rw e (ground (arith, e, text_beq_iff x v, add_versions-has v vs acc))
  | inr e ↦ rw e (
      ground
        (arith, text_beq_iff x v, add_versions-has v vs (acc ++ x ∷ []), has-append v acc (x ∷ [])))
]

add_versions-Unique : (vs acc : List Text) → Unique acc → Unique (add_versions vs acc)
unfolding add_versions
add_versions-Unique [] acc h = h
add_versions-Unique (x ∷ vs) acc h = elim (Bool-cases (has x acc)) [
  | inl e ↦ rw e (add_versions-Unique vs acc h)
  | inr e ↦ rw e (add_versions-Unique vs (acc ++ x ∷ []) (one-Unique x acc h e))
]

abbrev releases_in : Result FetchError ReleasesResult → List Text
releases_in (err e) = []
releases_in (ok found) = found.releases

module _ (sorter : Sorter) (graph : ℕ → GraphEnv) where
  -- The releases of all channels that could be fetched.
  unfoldable pub listed_releases : ℕ → List Text → Map GraphEntry → List Text
  listed_releases n [] cache = []
  listed_releases n (channel ∷ channels) cache =
      let (found, cache') = fetch_releases sorter (graph n) channel cache in
      releases_in found ++ listed_releases (suc n) channels cache'

  add_releases-has :
      (v : Text) (found : Result FetchError ReleasesResult) (acc : List Text)
      → has v (add_releases found acc) ≡ has v acc || has v (releases_in found)
  unfolding has
  add_releases-has v (err e) acc = ground arith
  add_releases-has v (ok found) acc = add_versions-has v found.releases acc

  add_releases-Unique :
      (found : Result FetchError ReleasesResult) (acc : List Text)
      → Unique acc
      → Unique (add_releases found acc)
  add_releases-Unique (err e) acc h = h
  add_releases-Unique (ok found) acc h = add_versions-Unique found.releases acc h

  resolve_channels-has :
      (v : Text) (n : ℕ) (channels acc : List Text) (cache : Map GraphEntry)
      → has v (resolve_channels sorter graph n channels acc cache).0
        ≡ has v acc || has v (listed_releases n channels cache)
  unfolding resolve_channels listed_releases has
  resolve_channels-has v n [] acc cache = ground arith
  resolve_channels-has v n (c ∷ channels) acc cache =
      let (found, cache') = fetch_releases sorter (graph n) c cache in
      ground (
        arith,
        resolve_channels-has v (suc n) channels (add_releases found acc) cache',
        add_releases-has v found acc,
        has-append v (releases_in found) (listed_releases (suc n) channels cache'),
      )

  resolve_channels-Unique :
      (n : ℕ) (channels acc : List Text) (cache : Map GraphEntry)
      → Unique acc
      → Unique (resolve_channels sorter graph n channels acc cache).0
  unfolding resolve_channels
  resolve_channels-Unique n [] acc cache h = h
  resolve_channels-Unique n (c ∷ channels) acc cache h =
      let (found, cache') = fetch_releases sorter (graph n) c cache in
      resolve_channels-Unique (suc n) channels (add_releases found acc) cache'
        (add_releases-Unique found acc h)

  -- The versions to sync are the pinned ones and the releases of the channels that could be fetched,
  -- each of them once, and sorted by semverLess.
  pub resolve_versions-occurrences :
      (cfg : ClientsConfig) (cache : Map GraphEntry)
      → ((v : Text)
          → occurrences v (resolve_versions sorter graph cfg cache).0
            ≡ (if has v (listed_releases 0 cfg.channels cache) || has v cfg.versions then 1 else 0))
        × IsSorted semver_less (resolve_versions sorter graph cfg cache).0
  unfolding resolve_versions sort_versions has
  resolve_versions-occurrences cfg cache =
      let found = (resolve_channels sorter graph 0 cfg.channels [] cache).0 in
      let chosen = add_versions cfg.versions found in
      let unique =
        add_versions-Unique cfg.versions found
          (resolve_channels-Unique 0 cfg.channels [] cache (λ v. refl)) in
      (
        λ v.
            sum_by-perm (λ y. if y == v then 1 else 0) (sorter.permutes semver_less chosen)
            ∙ unique v
            ∙ ap (λ (b : Bool). if b then 1 else 0)
                (add_versions-has v cfg.versions found
                  ∙ ap (λ b. b || has v cfg.versions)
                      (resolve_channels-has v 0 cfg.channels [] cache)),
        sorter.sorts semver_less semver_less-StrictWeakOrder chosen,
      )
