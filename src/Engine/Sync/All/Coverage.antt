-- ===== src/Engine/Sync/All/Coverage.antt =====
-- Which providers a sync of all covers.
use ocp_offline.Prelude.{
  ◌≡◌, refl, sym, ap, ◌∙◌, subst, ◌⊎◌, inl, inr, Text, text_eq, text_beq_iff, Bool, true, false,
  List, [], ◌∷◌, some, Result, ok, err, if◌then◌else◌, ◌==◌, Map, lookup, lookup-insert, All,
  Bool-cases,
}
use ocp_offline.Config.{RawConfig, provider_enabled}
use ocp_offline.Provider.{SyncOptions, provider_names}
use ocp_offline.Engine.Sync.Base.{SyncEnv, SyncState}
use ocp_offline.Engine.Sync.{sync_provider}
use ocp_offline.Engine.Sync.All.{
  Gathered, gather, gather_one, gather_all, start_gathering, sync_all,
}

module _ {E R S : Type 0} (run : Text → S → Result E R × S) (enabled is_done : Text → Bool) where
  -- A provider that is disabled, one whose report was returned by its run, or one whose run failed,
  -- which is told.
  abbrev pub Covers : Gathered R S → Text → Type 0
  Covers g name =
      (enabled name ≡ false)
      ⊎ (((r : R) × (st : S) × (lookup name g.reports ≡ some r) × ((run name st).0 ≡ ok r))
          ⊎ ((e : E) × (st : S) × ((run name st).0 ≡ err e) × (g.has_errors ≡ true)))

  -- What the rest of the loop keeps.
  gather-Covers :
      (name other : Text) (st : S) (u : Result E R × S) (g : Gathered R S)
      → run other st ≡ u
      → Covers g name
      → Covers (gather run enabled is_done other u g) name
  gather-Covers name other st (err e, st') g k (inl h) = inl h
  gather-Covers name other st (err e, st') g k (inr (inl h)) = inr (inl h)
  gather-Covers name other st (err e, st') g k (inr (inr (e', s, h, t))) =
      inr (inr (e', s, h, refl))
  gather-Covers name other st (ok r, st') g k (inl h) = inl h
  gather-Covers name other st (ok r, st') g k (inr (inr h)) = inr (inr h)
  gather-Covers name other st (ok r, st') g k (inr (inl (r', s, h, t))) =
      elim (Bool-cases (other == name)) [
        | inl e ↦
            let same : other ≡ name = (text_beq_iff other name).0 e in
            inr (
              inl (
                r,
                st,
                rw (lookup-insert other name r g.reports, e) refl,
                subst (λ (n : Text). (run n st).0 ≡ ok r) same (ap (λ (x : Result E R × S). x.0) k),
              ))
        | inr e ↦ inr (inl (r', s, rw (lookup-insert other name r g.reports, e) h, t))
      ]

  -- What a body of the loop adds.
  gather-Covers_own :
      (name : Text) (st : S) (u : Result E R × S) (g : Gathered R S)
      → run name st ≡ u
      → Covers (gather run enabled is_done name u g) name
  gather-Covers_own name st (err e, st') g k =
      inr (inr (e, st, ap (λ (x : Result E R × S). x.0) k, refl))
  gather-Covers_own name st (ok r, st') g k =
      let self : (name == name) ≡ true = (text_beq_iff name name).1 refl in
      inr (
        inl (
          r,
          st,
          rw (lookup-insert name name r g.reports, self) refl,
          ap (λ (x : Result E R × S). x.0) k,
        ))

  pick-Covers :
      (b : Bool) (u v : Gathered R S) (name : Text)
      → Covers u name
      → Covers v name
      → Covers (if b then u else v) name
  pick-Covers true u v name h k = h
  pick-Covers false u v name h k = k

  gather_one-Covers :
      (name other : Text) (g : Gathered R S)
      → Covers g name
      → Covers (gather_one run enabled is_done other g) name
  unfolding gather_one
  gather_one-Covers name other g h =
      pick-Covers (enabled other) (gather run enabled is_done other (run other g.state) g) g name
        (gather-Covers name other g.state _ g refl h) h

  pick-Covers_own :
      (b : Bool) (u v : Gathered R S) (name : Text)
      → enabled name ≡ b
      → Covers u name
      → Covers (if b then u else v) name
  pick-Covers_own true u v name e h = h
  pick-Covers_own false u v name e h = inl e

  gather_one-Covers_own :
      (name : Text) (g : Gathered R S) → Covers (gather_one run enabled is_done name g) name
  unfolding gather_one
  gather_one-Covers_own name g =
      pick-Covers_own (enabled name) (gather run enabled is_done name (run name g.state) g) g name
        refl (gather-Covers_own name g.state _ g refl)

  gather_all-keeps :
      (names : List Text) (name : Text) (g : Gathered R S)
      → Covers g name
      → Covers (gather_all run enabled is_done names g) name
  unfolding gather_all
  gather_all-keeps [] name g h = h
  gather_all-keeps (other ∷ names) name g h =
      let k = gather_one-Covers name other g h in
      pick-Covers (gather_one run enabled is_done other g).is_cancelled
        (gather_one run enabled is_done other g)
        (gather_all run enabled is_done names (gather_one run enabled is_done other g)) name k
        (gather_all-keeps names name (gather_one run enabled is_done other g) k)

  goes_on :
      (b : Bool) (u v : Gathered R S)
      → u.is_cancelled ≡ b
      → (if b then u else v).is_cancelled ≡ false
      → (if b then u else v) ≡ v
  goes_on true u v e h = absurd (cc (e, h))
  goes_on false u v e h = refl

  gather_all-Covers :
      (names : List Text) (g : Gathered R S)
      → (gather_all run enabled is_done names g).is_cancelled ≡ false
      → All (Covers (gather_all run enabled is_done names g)) names
  unfolding gather_all
  gather_all-Covers [] g h = tt
  gather_all-Covers (name ∷ names) g h =
      let on =
        goes_on _ (gather_one run enabled is_done name g)
          (gather_all run enabled is_done names (gather_one run enabled is_done name g)) refl h in
      subst (λ x. All (Covers x) (name ∷ names)) (sym on)
        (
          gather_all-keeps names name _ (gather_one-Covers_own name g),
          gather_all-Covers names _ (sym (ap (λ (x : Gathered R S). x.is_cancelled) on) ∙ h),
        )

-- Where the context is not done, a sync of all goes on past providers that fail: each provider of the
-- registry is disabled, or its report is there as its sync returned it, or its sync failed and the
-- whole is reported to have errors.
pub sync_all-Covers :
    (env : SyncEnv) (providers : Map RawConfig) (opts : SyncOptions) (is_done : Text → Bool)
    (st : SyncState)
    → (sync_all env providers opts is_done st).is_cancelled ≡ false
    → All
        (Covers
          (λ name. sync_provider env name opts)
          (provider_enabled providers)
          is_done
          (sync_all env providers opts is_done st))
        (provider_names env.registry)
unfolding sync_all
sync_all-Covers env providers opts is_done st h =
    gather_all-Covers (λ name. sync_provider env name opts) (provider_enabled providers) is_done
      (provider_names env.registry) (start_gathering st) h
