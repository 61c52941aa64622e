-- ===== src/Ocp/Releases/Laws.antt =====
-- What the releases of a channel are.
use ocp_offline.Prelude.{
  Text, text_eq, text_beq_iff, Bool, false, not, ◌&&◌, ◌||◌, List, [], ◌∷◌, map, ◌≡◌, ◌++◌, ap,
  subst, refl, sym, ◌∙◌, arith, if◌then◌else◌, is_empty, has_prefix, has, occurrences, sum_by-perm,
  Sorter, All, IsSorted, ◌==◌,
}
use ocp_offline.Ocp.Semver.{semver_less, sort_versions}
use ocp_offline.Ocp.Semver.Order.{semver_less-StrictWeakOrder}
use ocp_offline.Ocp.Releases.{
  GraphNode, ReleasesResult, before_last, select_versions, minor_prefix, last_of, releases_of,
  filter_and_sort_releases,
}

abbrev pub versions_of : List GraphNode → List Text
versions_of = map (λ (n : GraphNode). n.version)

-- A version that the channel's minor version begins; a channel without a dash has every version.
abbrev pub fits : Text → Text → Bool
fits prefix v = not (is_empty v) && (is_empty prefix || has_prefix v prefix)

-- Every version that fits is selected once, if it was not seen.
select_versions-occurrences :
    (prefix v : Text) (seen : List Text) (nodes : List GraphNode)
    → occurrences v (select_versions prefix seen nodes)
      ≡ (if (has v (versions_of nodes) && not (has v seen)) && fits prefix v then 1 else 0)
unfolding select_versions has
select_versions-occurrences prefix v seen [] = refl
select_versions-occurrences prefix v seen (node ∷ nodes) = ground (
  arith,
  text_beq_iff node.version v,
  select_versions-occurrences prefix v seen nodes,
  select_versions-occurrences prefix v (node.version ∷ seen) nodes,
)

module _ (sorter : Sorter) (channel : Text) (nodes : List GraphNode) where
  -- The releases of a channel are the versions of the graph's nodes that are not empty and begin with
  -- the channel's minor version (all of them, for a channel without a dash), each of them once.
  pub releases-occurrences :
      (v : Text)
      → occurrences v (filter_and_sort_releases sorter channel nodes).releases
        ≡ (if has v (versions_of nodes) && fits (minor_prefix channel) v then 1 else 0)
  unfolding filter_and_sort_releases sort_versions has
  releases-occurrences v =
      let chosen = select_versions (minor_prefix channel) [] nodes in
      sum_by-perm (λ y. if y == v then 1 else 0) (sorter.permutes semver_less chosen)
      ∙ select_versions-occurrences (minor_prefix channel) v [] nodes
      ∙ ground arith

  releases-IsSorted : IsSorted semver_less (filter_and_sort_releases sorter channel nodes).releases
  unfolding filter_and_sort_releases sort_versions
  releases-IsSorted =
      sorter.sorts semver_less semver_less-StrictWeakOrder
        (select_versions (minor_prefix channel) [] nodes)

All-last_of :
    (P : Text → Type 0) (v : Text) (vs : List Text) → All P (v ∷ vs) → P (last_of (v ∷ vs))
All-last_of P v [] h = h.0
All-last_of P v (w ∷ vs) h = All-last_of P w vs h.1

semver_less_irrefl : (v : Text) → semver_less v v ≡ false
semver_less_irrefl v = ground (arith, semver_less-StrictWeakOrder.asym v v)

last_of-newest :
    (vs : List Text) → IsSorted semver_less vs → All (λ v. semver_less (last_of vs) v ≡ false) vs
last_of-newest [] h = tt
last_of-newest (v ∷ []) h = (semver_less_irrefl v, tt)
last_of-newest (v ∷ w ∷ vs) (h, hs) =
    (All-last_of (λ y. semver_less y v ≡ false) w vs h, last_of-newest (w ∷ vs) hs)

last_two :
    (v w : Text) (vs : List Text)
    → (front : List Text) × (v ∷ w ∷ vs
        ≡ front ++ before_last (v ∷ w ∷ vs) ∷ last_of (v ∷ w ∷ vs) ∷ [])
last_two v w [] = ([], refl)
last_two v w (x ∷ vs) = let (front, e) = last_two w x vs in (v ∷ front, ap (◌∷◌ v) e)

-- What a result says of its newest releases.
pub record Newest (r : ReleasesResult) : Type 0 where
  pub sorted : IsSorted semver_less r.releases
  pub no_newer : All (λ v. semver_less r.latest v ≡ false) r.releases
  pub single : (v : Text) → r.releases ≡ v ∷ [] → r.latest ≡ v
  pub ending :
      (v w : Text) (vs : List Text)
      → r.releases ≡ v ∷ w ∷ vs
      → (front : List Text) × (r.releases ≡ front ++ r.previous ∷ r.latest ∷ [])

releases_of-Newest :
    (channel : Text) (vs : List Text) → IsSorted semver_less vs → Newest (releases_of channel vs)
releases_of-Newest channel vs h = record {
  sorted = h;
  no_newer = last_of-newest vs h;
  single = λ v e. ap last_of e;
  ending = λ v w ws e.
      subst (λ us. (front : List Text) × (us ≡ front ++ before_last us ∷ last_of us ∷ [])) (sym e)
        (last_two v w ws);
}

-- Releases are sorted by semverLess, none is newer than Latest, and Previous and Latest are the last
-- two of them.
pub filter_and_sort_releases-Newest :
    (sorter : Sorter) (channel : Text) (nodes : List GraphNode)
    → Newest (filter_and_sort_releases sorter channel nodes)
unfolding filter_and_sort_releases sort_versions
filter_and_sort_releases-Newest sorter channel nodes =
    releases_of-Newest channel _ (releases-IsSorted sorter channel nodes)
