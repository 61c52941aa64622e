-- ===== src/Ocp/Tracks/Laws.antt =====
-- What groupChannels returns.
use mathlib.Core.List.{map-append}
use ocp_offline.Prelude.{
  ◌+◌, subst, StrictWeakOrder, IsSorted, ◌≤◌, sum_by-append, lookup-delete, Text, text_eq,
  text_beq_iff, Bool, true, false, List, [], ◌∷◌, ◌++◌, append-nil, append_assoc, map, Option, none,
  some, ◌≡◌, refl, sym, ap, ◌∙◌, arith, ◌==◌, if◌then◌else◌, keep, Map, lookup, delete, keys,
  occurrences, sum_by-perm, Sorter, text_lt, Option-cases, inl, inr, Bool-cases, IsMap, IsMap-nil,
  insert-IsMap, delete-IsMap, present,
}
use ocp_offline.Ocp.Semver.Order.{lt_int-asym, lt_int-weak}
use ocp_offline.Ocp.Tracks.{
  TrackGroup, TracksResult, kind_of, group_at, add_channel, add_channels, newer, sort_groups,
  type_order, channel_minor, track, ordered_groups, remaining_groups, group_channels,
}
use ocp_offline.Ocp.Tracks.Groups.{
  channels_of, of_kind, group_at-add_channels, group_at-sort_groups, channels_of-ordered_groups,
}

abbrev pub types : List TrackGroup → List Text
types = map (λ (g : TrackGroup). g.kind)

add_channels-IsMap :
    (channels : List Text) (groups : Map (List Text))
    → IsMap groups
    → IsMap (add_channels channels groups)
unfolding add_channels
add_channels-IsMap [] groups h = h
add_channels-IsMap (c ∷ cs) groups h =
    add_channels-IsMap cs (add_channel c (kind_of c) groups) (one (kind_of c))
  where
    one : (kind : Option Text) → IsMap (add_channel c kind groups)
    one none = h
    one (some t) = insert-IsMap t (group_at t groups ++ c ∷ []) groups h

ordered_groups-IsMap :
    (ts : List Text) (groups : Map (List Text)) → IsMap groups → IsMap (ordered_groups ts groups).1
unfolding ordered_groups
ordered_groups-IsMap [] groups h = h
ordered_groups-IsMap (t ∷ ts) groups h = elim (Option-cases (lookup t groups)) [
  | inl e ↦ rw e (ordered_groups-IsMap ts groups h)
  | inr (chs, e) ↦ rw e (ordered_groups-IsMap ts (delete t groups) (delete-IsMap t groups h))
]

module _ (t : Text) (groups : Map (List Text)) where
  abbrev tracks : List Text → List TrackGroup
  tracks = map (λ k. track k (group_at k groups))

  channels_of-none : (ts : List Text) → occurrences t ts ≡ 0 → channels_of t (tracks ts) ≡ []
  channels_of-none [] h = refl
  channels_of-none (k ∷ ts) h = ground (arith, channels_of-none ts)

  channels_of-once :
      (ts : List Text) → occurrences t ts ≡ 1 → channels_of t (tracks ts) ≡ group_at t groups
  channels_of-once [] h = absurd (omega (arith, h))
  channels_of-once (k ∷ ts) h = elim (Bool-cases (k == t)) [
    | inl e ↦
        let same : k ≡ t = (text_beq_iff k t).0 e in
        let rest = channels_of-none ts (ground arith) in rw (e, rest, same) (append-nil _)
    | inr e ↦ rw e (channels_of-once ts (ground arith))
  ]

  -- Types that are listed once if the map has them.
  channels_of-tracks :
      (ts : List Text)
      → occurrences t ts ≡ (if present (lookup t groups) then 1 else 0)
      → channels_of t (tracks ts) ≡ group_at t groups
  channels_of-tracks ts h = elim (Option-cases (lookup t groups)) [
    | inl e ↦ channels_of-none ts (rw e at h) ∙ rw e refl
    | inr (chs, e) ↦ channels_of-once ts (rw e at h)
  ]

types-tracks :
    (groups : Map (List Text)) (ts : List Text)
    → types (map (λ k. track k (group_at k groups)) ts) ≡ ts
types-tracks groups [] = refl
types-tracks groups (k ∷ ts) = ap (◌∷◌ k) (types-tracks groups ts)

-- A type whose group is taken out is not left.
types-ordered_groups :
    (t : Text) (ts : List Text) (groups : Map (List Text))
    → occurrences t (types (ordered_groups ts groups).0)
        + (if present (lookup t (ordered_groups ts groups).1) then 1 else 0)
      ≡ (if present (lookup t groups) then 1 else 0)
unfolding ordered_groups
types-ordered_groups t [] groups = omega arith
types-ordered_groups t (k ∷ ts) groups = elim (Option-cases (lookup k groups)) [
  | inl e ↦ rw e (types-ordered_groups t ts groups)
  | inr (chs, e) ↦ rw e (
      ground (
        arith,
        e,
        text_beq_iff k t,
        lookup-delete k t groups,
        types-ordered_groups t ts (delete k groups),
      ))
]

present_le : (b : Bool) → (if b then 1 else 0) ≤ 1
present_le true = omega arith
present_le false = omega arith

module _ (sorter : Sorter) where
  keys-sort_groups : (groups : Map (List Text)) → keys (sort_groups sorter groups) ≡ keys groups
  unfolding sort_groups
  keys-sort_groups [] = refl
  keys-sort_groups ((k, chs) ∷ groups) = ap (◌∷◌ k) (keys-sort_groups groups)

  present-sort_groups :
      (t : Text) (groups : Map (List Text))
      → present (lookup t (sort_groups sorter groups)) ≡ present (lookup t groups)
  unfolding sort_groups lookup
  present-sort_groups t [] = refl
  present-sort_groups t ((k, chs) ∷ groups) = elim (Bool-cases (k == t)) [
    | inl e ↦ rw e refl
    | inr e ↦ rw e (present-sort_groups t groups)
  ]

  sort_groups-IsMap : (groups : Map (List Text)) → IsMap groups → IsMap (sort_groups sorter groups)
  sort_groups-IsMap groups h t = rw (keys-sort_groups groups, present-sort_groups t groups) (h t)

  channels_of-append :
      (t : Text) (gs hs : List TrackGroup)
      → channels_of t (gs ++ hs) ≡ channels_of t gs ++ channels_of t hs
  channels_of-append t [] hs = refl
  channels_of-append t (g ∷ gs) hs =
      rw (channels_of-append t gs hs)
        (sym (append_assoc (if g.kind == t then g.channels else []) (channels_of t gs) _))

  channels_of-remaining :
      (t : Text) (groups : Map (List Text))
      → IsMap groups
      → channels_of t (remaining_groups sorter groups) ≡ group_at t groups
  channels_of-remaining t groups h =
      channels_of-tracks t groups (sorter.run text_lt (keys groups))
        (sum_by-perm (λ y. if y == t then 1 else 0) (sorter.permutes text_lt (keys groups)) ∙ h t)

  channels_of-group_channels :
      (t : Text) (channels : List Text)
      → channels_of t (group_channels sorter channels).groups
        ≡ sorter.run newer (keep (of_kind t) channels)
  unfolding group_channels lookup
  channels_of-group_channels t channels =
      let grouped = sort_groups sorter (add_channels channels []) in
      let unique = sort_groups-IsMap _ (add_channels-IsMap channels [] (IsMap-nil (List Text))) in
      let (found, rest) = ordered_groups type_order grouped in
      channels_of-append t found (remaining_groups sorter rest)
      ∙ ap (λ chs. channels_of t found ++ chs)
          (channels_of-remaining t rest (ordered_groups-IsMap type_order grouped unique))
      ∙ channels_of-ordered_groups t type_order grouped
      ∙ group_at-sort_groups sorter t (add_channels channels [])
      ∙ ap (sorter.run newer) (group_at-add_channels t channels [])

  types-remaining :
      (t : Text) (groups : Map (List Text))
      → IsMap groups
      → occurrences t (types (remaining_groups sorter groups))
        ≡ (if present (lookup t groups) then 1 else 0)
  types-remaining t groups h =
      ap (occurrences t) (types-tracks groups (sorter.run text_lt (keys groups)))
      ∙ sum_by-perm (λ y. if y == t then 1 else 0) (sorter.permutes text_lt (keys groups))
      ∙ h t

  types-group_channels :
      (t : Text) (channels : List Text)
      → occurrences t (types (group_channels sorter channels).groups) ≤ 1
  unfolding group_channels
  types-group_channels t channels =
      let grouped = sort_groups sorter (add_channels channels []) in
      let unique = sort_groups-IsMap _ (add_channels-IsMap channels [] (IsMap-nil (List Text))) in
      let (found, rest) = ordered_groups type_order grouped in
      rw (map-append (λ (g : TrackGroup). g.kind) found (remaining_groups sorter rest)) (
        omega (
          arith,
          sum_by-append (λ y. if y == t then 1 else 0) (types found)
              (types (remaining_groups sorter rest)),
          types-remaining t rest (ordered_groups-IsMap type_order grouped unique),
          types-ordered_groups t type_order grouped,
          present_le (present (lookup t grouped)),
        ))

newer-StrictWeakOrder : StrictWeakOrder newer
unfolding newer
newer-StrictWeakOrder = record {
  asym = λ x y. lt_int-asym (channel_minor y) (channel_minor x);
  weak = λ x y z h k. lt_int-weak (channel_minor z) (channel_minor y) (channel_minor x) k h;
}

-- The channels by type: one group for a type at most, which holds the channels of that type as often
-- as they are listed, sorted by their minor version, the newest first.
pub record IsGrouping (channels : List Text) (r : TracksResult) : Type 0 where
  pub once : (t : Text) → occurrences t (types r.groups) ≤ 1
  pub grouped :
      (t channel : Text)
      → occurrences channel (channels_of t r.groups)
        ≡ occurrences channel (keep (of_kind t) channels)
  pub sorted : (t : Text) → IsSorted newer (channels_of t r.groups)

-- groupChannels gives one group for a type at most, which holds the listed channels with that type in
-- front of their first dash, each as often as it is listed, and no channel in front of one with a
-- greater minor version.
pub group_channels-IsGrouping :
    (sorter : Sorter) (channels : List Text) → IsGrouping channels (group_channels sorter channels)
group_channels-IsGrouping sorter channels = record {
  once = λ t. types-group_channels sorter t channels;
  grouped = λ t channel.
      ap (occurrences channel) (channels_of-group_channels sorter t channels)
      ∙ sum_by-perm (λ y. if y == channel then 1 else 0)
          (sorter.permutes newer (keep (of_kind t) channels));
  sorted = λ t.
      subst (IsSorted newer) (sym (channels_of-group_channels sorter t channels))
        (sorter.sorts newer newer-StrictWeakOrder (keep (of_kind t) channels));
}
