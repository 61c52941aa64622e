-- ===== src/Engine/Import/Skipped.antt =====
-- An import that skips every archive, as validated before, extracts nothing.
use ocp_offline.Prelude.{
  ◌≡◌, refl, sym, ap, ◌∙◌, subst, inl, inr, Text, text_eq, text_beq_iff, Bool, true, false, List,
  [], ◌∷◌, Result, ok, err, ◌==◌, if◌then◌else◌, Bool-cases, All,
}
use ocp_offline.Engine.Export.{ArchiveInfo}
use ocp_offline.Engine.Import.Guards.{validated-Untouched}
use ocp_offline.Engine.Import.Verified.{not_stopped}
use ocp_offline.Engine.Import.{
  Env, State, ImportOptions, ImportError, cancelled, start_transfer, count_skipped, already_valid,
  validate_one, validate_all, is_member, extract_all,
}

-- Every archive was validated before, as the store has it.
abbrev pub AllValid : Env → ImportOptions → State → List ArchiveInfo → Type 0
AllValid env opts st = All (λ a. already_valid env opts a st ≡ true)

pick_state :
    {T : Type 0}
    → (P : State → Type 0) (b : Bool) (u v : T × State) → P u.1
    → P v.1
    → P (if b then u else v).1
pick_state P true u v h k = h
pick_state P false u v h k = k

is_member-front :
    (s t : Text) (ts : List Text) → is_member s ts ≡ true → is_member s (t ∷ ts) ≡ true
unfolding is_member
is_member-front s t ts h = elim (Bool-cases (s == t)) [ inl e ↦ rw e refl | inr e ↦ rw (e, h) refl ]

is_member_self : (s : Text) (ts : List Text) → is_member s (s ∷ ts) ≡ true
unfolding is_member
is_member_self s ts = rw ((text_beq_iff s s).1 refl) refl

module _ (env : Env) (opts : ImportOptions) (f : opts.force ≡ false) where
  one-skipped :
      (a : ArchiveInfo) (st : State)
      → already_valid env opts a st ≡ true
      → validate_one env opts a st ≡ count_skipped a st
  unfolding validate_one
  one-skipped a st v = rw (v, f) refl

  AllValid-skipped :
      (a : ArchiveInfo) (st : State) (as' : List ArchiveInfo)
      → AllValid env opts st as'
      → AllValid env opts (count_skipped a st) as'
  unfolding already_valid count_skipped
  AllValid-skipped a st as' v = v

  skipped-keeps :
      (n : Text) (as' : List ArchiveInfo) (st : State)
      → AllValid env opts st as'
      → is_member n st.skipped ≡ true
      → is_member n (validate_all env opts as' st).1.skipped ≡ true
  unfolding validate_all count_skipped
  skipped-keeps n [] st v h = h
  skipped-keeps n (a ∷ as') st v h =
      pick_state (λ s. is_member n s.skipped ≡ true) (env.source.done_validating a.name)
        (err cancelled, st) (validate_all env opts as' (validate_one env opts a st)) h
        (subst (λ s. is_member n (validate_all env opts as' s).1.skipped ≡ true)
          (sym (one-skipped a st v.0))
          (skipped-keeps n as' (count_skipped a st) (AllValid-skipped a st as' v.1)
            (is_member-front n a.name st.skipped h)))

  AllSkipped : State → List ArchiveInfo → Type 0
  AllSkipped st = All (λ a. is_member a.name st.skipped ≡ true)

  validate_all-skipped :
      (as' : List ArchiveInfo) (st : State)
      → AllValid env opts st as'
      → (validate_all env opts as' st).0 ≡ ok tt
      → AllSkipped (validate_all env opts as' st).1 as'
  unfolding validate_all count_skipped AllSkipped
  validate_all-skipped [] st v r = tt
  validate_all-skipped (a ∷ as') st v r =
      let st' : State = validate_one env opts a st in
      let rest : Result ImportError (Unit {0}) × State = validate_all env opts as' st' in
      let go : env.source.done_validating a.name ≡ false =
        not_stopped (env.source.done_validating a.name) cancelled st tt rest r in
      let same : (if env.source.done_validating a.name then (err cancelled, st) else rest) ≡ rest =
        rw go refl in
      let one : st' ≡ count_skipped a st = one-skipped a st v.0 in
      let same' : (if env.source.done_validating a.name then (err cancelled, st) else rest)
          ≡ validate_all env opts as' (count_skipped a st) =
        same ∙ ap (λ s. validate_all env opts as' s) one in
      subst (λ p. AllSkipped p.1 (a ∷ as')) (sym same')
        (
          skipped-keeps a.name as' (count_skipped a st) (AllValid-skipped a st as' v.1)
              (is_member_self a.name st.skipped),
          validate_all-skipped as' (count_skipped a st) (AllValid-skipped a st as' v.1)
              (ap (λ p. p.0) (sym same') ∙ r),
        )

  extract_all-skipped :
      (as' : List ArchiveInfo) (st : State)
      → AllSkipped st as'
      → ((extract_all env as' st).1.disk ≡ st.disk)
        × ((extract_all env as' st).1.report ≡ st.report)
  unfolding extract_all AllSkipped
  extract_all-skipped [] st h = (refl, refl)
  extract_all-skipped (a ∷ as') st h =
      pick_state (λ s. (s.disk ≡ st.disk) × (s.report ≡ st.report))
        (env.source.done_extracting a.name) (err cancelled, st) _ (refl, refl)
        (rw (h.0) (extract_all-skipped as' st h.1))

-- The state that a validation leaves.
abbrev pub validated_state : Env → ImportOptions → List ArchiveInfo → State → State
validated_state env opts archives st =
    (validate_all env opts archives (start_transfer env opts st)).1

-- If the store counts every archive of the manifest as validated, the validation of an import that
-- skips validated archives and is not forced leaves a state from which the extraction of these
-- archives writes no file: the disk is as before the import, and the report, with its count of the
-- files extracted, as after the validation. The validation was not stopped.
pub skip_validated-disk :
    (env : Env) (opts : ImportOptions) (archives : List ArchiveInfo) (st : State)
    → opts.force ≡ false
    → AllValid env opts (start_transfer env opts st) archives
    → (validate_all env opts archives (start_transfer env opts st)).0 ≡ ok tt
    → ((extract_all env archives (validated_state env opts archives st)).1.disk ≡ st.disk)
      × ((extract_all env archives (validated_state env opts archives st)).1.report
          ≡ (validated_state env opts archives st).report)
skip_validated-disk env opts archives st f v r =
    let none_left =
      extract_all-skipped env opts f archives (validated_state env opts archives st)
        (validate_all-skipped env opts f archives (start_transfer env opts st) v r) in
    (none_left.0 ∙ (validated-Untouched env opts archives st).0, none_left.1)
