-- ===== src/Ocp/Tracks/Groups.antt =====
-- What the loops of groupChannels collect for a type, in the loop over the channels, the sort and the
-- loop over the known types.
use mathlib.Core.List.Perm
use ocp_offline.Prelude.{
  Text, text_eq, text_beq_iff, Bool, true, false, List, [], ◌∷◌, ◌++◌, append-nil, append_assoc,
  Option, none, some, ◌≡◌, refl, sym, ap, ◌∙◌, ◌==◌, if◌then◌else◌, keep, Map, lookup, insert,
  delete, lookup-insert, lookup-delete, Sorter, Option-cases, inl, inr, ◌⊎◌, Bool-cases,
}
use ocp_offline.Ocp.Tracks.{
  TrackGroup, kind_of, group_at, add_channel, add_channels, newer, sort_groups, ordered_groups,
}

-- The channels of all groups of a type.
abbrev pub channels_of : Text → List TrackGroup → List Text
channels_of t [] = []
channels_of t (g ∷ gs) = (if g.kind == t then g.channels else []) ++ channels_of t gs

-- The part of a channel's name in front of the first dash is this type.
abbrev pub is_of : Text → Option Text → Bool
is_of t none = false
is_of t (some kind) = kind == t

abbrev pub of_kind : Text → Text → Bool
of_kind t channel = is_of t (kind_of channel)

group_at-insert :
    (t k : Text) (chs : List Text) (groups : Map (List Text))
    → group_at t (insert k chs groups) ≡ (if k == t then chs else group_at t groups)
group_at-insert t k chs groups = elim (Bool-cases (k == t)) [
  | inl e ↦ rw (lookup-insert k t chs groups, e) refl
  | inr e ↦ rw (lookup-insert k t chs groups, e) refl
]

group_at-delete :
    (t k : Text) (groups : Map (List Text))
    → group_at t (delete k groups) ≡ (if k == t then [] else group_at t groups)
group_at-delete t k groups = elim (Bool-cases (k == t)) [
  | inl e ↦ rw (lookup-delete k t groups, e) refl
  | inr e ↦ rw (lookup-delete k t groups, e) refl
]

group_at-add_channel :
    (t channel : Text) (kind : Option Text) (groups : Map (List Text))
    → group_at t (add_channel channel kind groups)
      ≡ group_at t groups ++ (if is_of t kind then channel ∷ [] else [])
group_at-add_channel t channel none groups = sym (append-nil _)
group_at-add_channel t channel (some k) groups = elim (Bool-cases (k == t)) [
  | inl e ↦
      let same : k ≡ t = (text_beq_iff k t).0 e in
      rw (group_at-insert t k (group_at k groups ++ channel ∷ []) groups, e, same) refl
  | inr e ↦
      rw (group_at-insert t k (group_at k groups ++ channel ∷ []) groups, e) (sym (append-nil _))
]

-- The loop collects the channels of every type in their order.
pub group_at-add_channels :
    (t : Text) (channels : List Text) (groups : Map (List Text))
    → group_at t (add_channels channels groups) ≡ group_at t groups ++ keep (of_kind t) channels
unfolding add_channels
group_at-add_channels t [] groups = sym (append-nil _)
group_at-add_channels t (c ∷ cs) groups =
    group_at-add_channels t cs (add_channel c (kind_of c) groups)
    ∙ rw (group_at-add_channel t c (kind_of c) groups) (one_more (of_kind t c))
  where
    one_more :
        (b : Bool)
        → (group_at t groups ++ (if b then c ∷ [] else [])) ++ keep (of_kind t) cs
          ≡ group_at t groups ++ (if b then c ∷ keep (of_kind t) cs else keep (of_kind t) cs)
    one_more true = append_assoc (group_at t groups) (c ∷ []) (keep (of_kind t) cs)
    one_more false = append_assoc (group_at t groups) [] (keep (of_kind t) cs)

module _ (sorter : Sorter) where
  pub run-nil : (before : Text → Text → Bool) → sorter.run before [] ≡ []
  run-nil before = Perm.eq-nil (sorter.permutes before [])

  pub group_at-sort_groups :
      (t : Text) (groups : Map (List Text))
      → group_at t (sort_groups sorter groups) ≡ sorter.run newer (group_at t groups)
  unfolding sort_groups lookup
  group_at-sort_groups t [] = sym (run-nil newer)
  group_at-sort_groups t ((k, chs) ∷ groups) = elim (Bool-cases (k == t)) [
    | inl e ↦ rw e refl
    | inr e ↦ rw e (group_at-sort_groups t groups)
  ]

-- What the loop over the types takes out, and what it leaves.
pub channels_of-ordered_groups :
    (t : Text) (ts : List Text) (groups : Map (List Text))
    → channels_of t (ordered_groups ts groups).0 ++ group_at t (ordered_groups ts groups).1
      ≡ group_at t groups
unfolding ordered_groups
channels_of-ordered_groups t [] groups = refl
channels_of-ordered_groups t (k ∷ ts) groups = elim (Option-cases (lookup k groups)) [
  | inl e ↦ rw e (channels_of-ordered_groups t ts groups)
  | inr (chs, e) ↦ rw e (
      append_assoc (if k == t then chs else []) _ _
      ∙ ap (λ r. (if k == t then chs else []) ++ r)
          (channels_of-ordered_groups t ts (delete k groups))
      ∙ rw (group_at-delete t k groups) (taken chs e (Bool-cases (k == t))))
]
  where
    taken :
        (chs : List Text)
        → lookup k groups ≡ some chs
        → (k == t ≡ true) ⊎ (k == t ≡ false)
        → (if k == t then chs else []) ++ (if k == t then [] else group_at t groups)
          ≡ group_at t groups
    taken chs e (inl h) =
        let same : k ≡ t = (text_beq_iff k t).0 h in rw h (append-nil chs ∙ rw (← same, e) refl)
    taken chs e (inr h) = rw h refl
