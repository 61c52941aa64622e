-- ===== src/Engine/Import/Verified.antt =====
-- What an import verifies: the hash of every archive, unless it is forced or told to skip.
use ocp_offline.Prelude.{
  ℕ, ◌+◌, ◌≡◌, refl, sym, ap, ◌∙◌, subst, inl, inr, Text, text_eq, text_beq_iff, Bool, true, false,
  List, [], ◌∷◌, Option, none, some, Result, ok, err, arith, ◌==◌, ltb, if◌then◌else◌, Bool-cases,
  All, nat_eq,
}
use ocp_offline.Engine.Export.{ArchiveInfo, TransferManifest}
use ocp_offline.Engine.Import.{
  Env, State, ImportOptions, ImportReport, ImportError, cancelled, failed_validation,
  start_transfer, count_valid, count_failed, count_skipped, compare_hash, check_hash, already_valid,
  validate_one, validate_all, finish_import, after_validation, import_present, import_read,
  import_transfer, all_present,
}
use ocp_offline.Engine.Import.Guards.{Untouched, after-Untouched, validated-Untouched}

-- The archive on the medium has the hash of the manifest.
abbrev pub IsIntact : Env → ArchiveInfo → Type 0
IsIntact env a = env.source.hash a.name ≡ some a.sha256

abbrev failures : State → ℕ
failures st = st.report.archives_failed

count_valid-failures :
    (env : Env) (a : ArchiveInfo) (st : State) → failures (count_valid env a st) ≡ failures st
unfolding count_valid
count_valid-failures env a st = elim (Bool-cases (st.transfer.id == 0)) [
  | inl e ↦ rw e refl
  | inr e ↦ rw e refl
]

compare_hash-IsIntact :
    (env : Env) (a : ArchiveInfo) (h : Option Text) (st : State)
    → failures (compare_hash env a h st) ≡ 0
    → (h ≡ some a.sha256) × (failures st ≡ 0)
unfolding compare_hash count_failed
compare_hash-IsIntact env a none st z = absurd (omega arith)
compare_hash-IsIntact env a (some h) st z = elim (Bool-cases (h == a.sha256)) [
  | inl e ↦ (
    ap some ((text_beq_iff h a.sha256).0 e),
    sym (count_valid-failures env a st)
        ∙ subst (λ b. failures (if b then count_valid env a st else count_failed a.name st) ≡ 0) e
            z,
  )
  | inr e ↦
      let z' : st.report.archives_failed + 1 ≡ 0 =
        subst (λ b. failures (if b then count_valid env a st else count_failed a.name st) ≡ 0) e
          z in
      absurd (omega arith)
]

third-failures :
    (b c : Bool) (u v w : State)
    → b ≡ false
    → c ≡ false
    → failures (if b then u else if c then v else w) ≡ 0
    → failures w ≡ 0
third-failures true c u v w b c' z = absurd (ground arith)
third-failures false true u v w b c' z = absurd (ground arith)
third-failures false false u v w b c' z = z

not_already :
    (env : Env) (opts : ImportOptions) (a : ArchiveInfo) (st : State)
    → opts.skip_validated ≡ false
    → already_valid env opts a st ≡ false
unfolding already_valid
not_already env opts a st s = rw s refl

pub not_stopped :
    {T : Type 0}
    → (b : Bool) (e : ImportError) (st : State) (v : T) (q : Result ImportError T × State)
    → (if b then (err e, st) else q).0 ≡ ok v
    → b ≡ false
not_stopped true e st v q r = absurd (cc r)
not_stopped false e st v q r = refl

validate_one-IsIntact :
    (env : Env) (opts : ImportOptions) (a : ArchiveInfo) (st : State)
    → opts.force ≡ false
    → opts.skip_validated ≡ false
    → failures (validate_one env opts a st) ≡ 0
    → IsIntact env a × (failures st ≡ 0)
unfolding validate_one check_hash
validate_one-IsIntact env opts a st f s z =
    compare_hash-IsIntact env a (env.source.hash a.name) st (
      third-failures opts.force (already_valid env opts a st) (count_valid env a st)
        (count_skipped a st) (check_hash env a st) f (not_already env opts a st s) z)

validate_all-IsIntact :
    (env : Env) (opts : ImportOptions) (as' : List ArchiveInfo) (st : State)
    → opts.force ≡ false
    → opts.skip_validated ≡ false
    → (validate_all env opts as' st).0 ≡ ok tt
    → failures (validate_all env opts as' st).1 ≡ 0
    → All (IsIntact env) as' × (failures st ≡ 0)
unfolding validate_all
validate_all-IsIntact env opts [] st f s r z = (tt, z)
validate_all-IsIntact env opts (a ∷ as') st f s r z =
    let st' : State = validate_one env opts a st in
    let rest : Result ImportError (Unit {0}) × State = validate_all env opts as' st' in
    let go : env.source.done_validating a.name ≡ false =
      not_stopped (env.source.done_validating a.name) cancelled st tt rest r in
    let same : (if env.source.done_validating a.name then (err cancelled, st) else rest) ≡ rest =
      rw go refl in
    let (tail, z') =
      validate_all-IsIntact env opts as' st' f s (ap (λ p. p.0) (sym same) ∙ r)
        (ap (λ p. failures p.1) (sym same) ∙ z) in
    let (here, z'') = validate_one-IsIntact env opts a st f s z' in ((here, tail), z'')

finish_ok-failures :
    (env : Env) (opts : ImportOptions) (manifest : TransferManifest) (st : State)
    (report : ImportReport)
    → (finish_import env opts manifest st).0 ≡ ok report
    → failures st ≡ 0
unfolding finish_import
finish_ok-failures env opts manifest st report h =
    let e : ltb 0 (failures st) ≡ false =
      not_stopped (ltb 0 (failures st)) (failed_validation (failures st)) _ report _ h in
    ground arith

-- The validation loop ended, and no archive failed.
abbrev IsClean : Result ImportError (Unit {0}) × State → Type 0
IsClean r = (r.0 ≡ ok tt) × (failures r.1 ≡ 0)

after-unclean :
    (env : Env) (opts : ImportOptions) (manifest : TransferManifest) (st : State)
    (r : Result ImportError (Unit {0}) × State)
    → Untouched st r.1
    → ¬ IsClean r
    → Untouched st (after_validation env opts manifest r).1
unfolding after_validation
after-unclean env opts manifest st (err e, st') u h = u
after-unclean env opts manifest st (ok x, st') u h = elim (Bool-cases (ltb 0 (failures st'))) [
  | inl e ↦ after-Untouched env opts manifest st (ok x, st') u (inr e)
  | inr e ↦ absurd (h (refl, ground arith))
]

after_ok-IsClean :
    (env : Env) (opts : ImportOptions) (manifest : TransferManifest)
    (r : Result ImportError (Unit {0}) × State) (report : ImportReport)
    → (after_validation env opts manifest r).0 ≡ ok report
    → IsClean r
unfolding after_validation
after_ok-IsClean env opts manifest (err e, st) report h = absurd (cc h)
after_ok-IsClean env opts manifest (ok x, st) report h =
    (refl, finish_ok-failures env opts manifest st report h)

IsClean-IsIntact :
    (env : Env) (opts : ImportOptions) (as' : List ArchiveInfo) (st : State)
    → opts.force ≡ false
    → opts.skip_validated ≡ false
    → IsClean (validate_all env opts as' st)
    → All (IsIntact env) as'
IsClean-IsIntact env opts as' st f s (r, z) = (validate_all-IsIntact env opts as' st f s r z).0

present_mismatch-Untouched :
    (env : Env) (opts : ImportOptions) (manifest : TransferManifest) (missing : Option Text)
    (st : State)
    → opts.force ≡ false
    → opts.skip_validated ≡ false
    → ¬ All (IsIntact env) manifest.archives
    → Untouched st (import_present env opts manifest missing st).1
unfolding import_present
present_mismatch-Untouched env opts manifest (some m) st f s bad = (refl, refl)
present_mismatch-Untouched env opts manifest none st f s bad =
    let r : Result ImportError (Unit {0}) × State =
      validate_all env opts manifest.archives (start_transfer env opts st) in
    after-unclean env opts manifest st r (validated-Untouched env opts manifest.archives st)
      (λ c. bad (IsClean-IsIntact env opts manifest.archives (start_transfer env opts st) f s c))

present_ok-IsIntact :
    (env : Env) (opts : ImportOptions) (manifest : TransferManifest) (missing : Option Text)
    (st : State) (report : ImportReport)
    → opts.force ≡ false
    → opts.skip_validated ≡ false
    → (import_present env opts manifest missing st).0 ≡ ok report
    → All (IsIntact env) manifest.archives
unfolding import_present
present_ok-IsIntact env opts manifest (some m) st report f s h = absurd (cc h)
present_ok-IsIntact env opts manifest none st report f s h =
    IsClean-IsIntact env opts manifest.archives (start_transfer env opts st) f s (
      after_ok-IsClean env opts manifest
        (validate_all env opts manifest.archives (start_transfer env opts st)) report h)

-- If some archive of the manifest lacks the hash the manifest gives, an import that is neither
-- forced nor told to skip validated archives leaves the disk and the file records as they were.
pub mismatch-Untouched :
    (env : Env) (opts : ImportOptions) (manifest : TransferManifest) (st : State)
    → env.source.manifest ≡ some manifest
    → opts.force ≡ false
    → opts.skip_validated ≡ false
    → ¬ All (IsIntact env) manifest.archives
    → Untouched st (import_transfer env opts st).1
unfolding import_transfer import_read
mismatch-Untouched env opts manifest st e f s bad =
    subst (λ m. Untouched st (import_read env opts m st).1) (sym e)
      (present_mismatch-Untouched env opts manifest (all_present env.source manifest.archives) st f
        s bad)

-- If an import that is neither forced nor told to skip validated archives succeeds, every archive
-- of the manifest has the hash the manifest gives.
pub import_ok-IsIntact :
    (env : Env) (opts : ImportOptions) (manifest : TransferManifest) (st : State)
    (report : ImportReport)
    → env.source.manifest ≡ some manifest
    → opts.force ≡ false
    → opts.skip_validated ≡ false
    → (import_transfer env opts st).0 ≡ ok report
    → All (IsIntact env) manifest.archives
unfolding import_transfer import_read
import_ok-IsIntact env opts manifest st report e f s h =
    present_ok-IsIntact env opts manifest (all_present env.source manifest.archives) st report f s
      (subst (λ m. (import_read env opts m st).0 ≡ ok report) e h)
