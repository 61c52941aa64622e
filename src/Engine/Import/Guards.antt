-- ===== src/Engine/Import/Guards.antt =====
-- What an import does not do: extract unverified archives, or write when it is to verify only.
use ocp_offline.Prelude.{
  ℕ, ◌≡◌, refl, ◌∙◌, ◌⊎◌, inl, inr, Text, text_eq, Bool, true, false, List, [], ◌∷◌, Option, none,
  some, Result, ok, err, arith, ◌==◌, ltb, if◌then◌else◌, Bool-cases, nat_eq,
}
use ocp_offline.Engine.Export.{ArchiveInfo, TransferManifest}
use ocp_offline.Engine.Import.{
  Env, State, ImportOptions, ImportReport, ImportError, start_transfer, count_valid, count_failed,
  count_skipped, compare_hash, check_hash, already_valid, validate_one, validate_all, save_transfer,
  finish_import, after_validation, import_present, import_read, import_transfer, failed_validation,
  all_present,
}

-- The disk and the file records are as they were.
abbrev pub Untouched : State → State → Type 0
Untouched st st' = (st'.disk ≡ st.disk) × (st'.files ≡ st.files)

Untouched-trans : (a b c : State) → Untouched a b → Untouched b c → Untouched a c
Untouched-trans a b c (d, f) (d', f') = (d' ∙ d, f' ∙ f)

start-Untouched :
    (env : Env) (opts : ImportOptions) (st : State) → Untouched st (start_transfer env opts st)
unfolding start_transfer
start-Untouched env opts st = (refl, refl)

count_valid-Untouched :
    (env : Env) (a : ArchiveInfo) (st : State) → Untouched st (count_valid env a st)
unfolding count_valid
count_valid-Untouched env a st = elim (Bool-cases (st.transfer.id == 0)) [
  | inl e ↦ rw e (refl, refl)
  | inr e ↦ rw e (refl, refl)
]

pub save-Untouched : (env : Env) (f : _) (st : State) → Untouched st (save_transfer env f st)
unfolding save_transfer
save-Untouched env f st = elim (Bool-cases (st.transfer.id == 0)) [
  | inl e ↦ rw e (refl, refl)
  | inr e ↦ rw e (refl, refl)
]

pick-Untouched :
    (b : Bool) (st u v : State)
    → Untouched st u
    → Untouched st v
    → Untouched st (if b then u else v)
pick-Untouched true st u v h k = h
pick-Untouched false st u v h k = k

compare_hash-Untouched :
    (env : Env) (a : ArchiveInfo) (h : Option Text) (st : State)
    → Untouched st (compare_hash env a h st)
unfolding compare_hash count_failed
compare_hash-Untouched env a none st = (refl, refl)
compare_hash-Untouched env a (some h) st =
    pick-Untouched (h == a.sha256) st (count_valid env a st) (count_failed a.name st)
      (count_valid-Untouched env a st) (refl, refl)

check_hash-Untouched :
    (env : Env) (a : ArchiveInfo) (st : State) → Untouched st (check_hash env a st)
unfolding check_hash
check_hash-Untouched env a st = compare_hash-Untouched env a (env.source.hash a.name) st

validate_one-Untouched :
    (env : Env) (opts : ImportOptions) (a : ArchiveInfo) (st : State)
    → Untouched st (validate_one env opts a st)
unfolding validate_one count_skipped
validate_one-Untouched env opts a st =
    pick-Untouched opts.force st _ _ (count_valid-Untouched env a st) (
      pick-Untouched (already_valid env opts a st) st _ _ (refl, refl)
        (check_hash-Untouched env a st))

validate_all-Untouched :
    (env : Env) (opts : ImportOptions) (as' : List ArchiveInfo) (st : State)
    → Untouched st (validate_all env opts as' st).1
unfolding validate_all
validate_all-Untouched env opts [] st = (refl, refl)
validate_all-Untouched env opts (a ∷ as') st =
    elim (Bool-cases (env.source.done_validating a.name)) [
      | inl e ↦ rw e (refl, refl)
      | inr e ↦ rw e (
          Untouched-trans st (validate_one env opts a st)
            (validate_all env opts as' (validate_one env opts a st)).1
            (validate_one-Untouched env opts a st)
            (validate_all-Untouched env opts as' (validate_one env opts a st)))
    ]

-- The outcomes after which nothing may have been extracted.
abbrev IsRefused : ImportOptions → Result ImportError ImportReport → Type 0
IsRefused opts res = (opts.verify_only ≡ true) ⊎ ((n : ℕ) × (res ≡ err (failed_validation n)))

finish-Untouched :
    (env : Env) (opts : ImportOptions) (manifest : TransferManifest) (st : State)
    → (opts.verify_only ≡ true) ⊎ (ltb 0 st.report.archives_failed ≡ true)
    → Untouched st (finish_import env opts manifest st).1
unfolding finish_import
finish-Untouched env opts manifest st h = elim (Bool-cases (ltb 0 st.report.archives_failed)) [
  | inl e ↦ rw e (save-Untouched env _ st)
  | inr e ↦ elim h [ inl v ↦ rw (e, v) (save-Untouched env _ st) | inr f ↦ absurd (ground arith) ]
]

pub after-Untouched :
    (env : Env) (opts : ImportOptions) (manifest : TransferManifest) (st : State)
    (r : Result ImportError (Unit {0}) × State)
    → Untouched st r.1
    → (opts.verify_only ≡ true) ⊎ (ltb 0 r.1.report.archives_failed ≡ true)
    → Untouched st (after_validation env opts manifest r).1
unfolding after_validation
after-Untouched env opts manifest st (err e, st') u h = u
after-Untouched env opts manifest st (ok x, st') u h =
    Untouched-trans st st' (finish_import env opts manifest st').1 u
      (finish-Untouched env opts manifest st' h)

pub validated-Untouched :
    (env : Env) (opts : ImportOptions) (as' : List ArchiveInfo) (st : State)
    → Untouched st (validate_all env opts as' (start_transfer env opts st)).1
validated-Untouched env opts as' st =
    Untouched-trans st (start_transfer env opts st)
      (validate_all env opts as' (start_transfer env opts st)).1 (start-Untouched env opts st)
      (validate_all-Untouched env opts as' (start_transfer env opts st))

present-Untouched :
    (env : Env) (opts : ImportOptions) (manifest : TransferManifest) (missing : Option Text)
    (st : State)
    → opts.verify_only ≡ true
    → Untouched st (import_present env opts manifest missing st).1
unfolding import_present
present-Untouched env opts manifest (some m) st v = (refl, refl)
present-Untouched env opts manifest none st v =
    after-Untouched env opts manifest st
      (validate_all env opts manifest.archives (start_transfer env opts st))
      (validated-Untouched env opts manifest.archives st) (inl v)

read-Untouched :
    (env : Env) (opts : ImportOptions) (manifest : Option TransferManifest) (st : State)
    → opts.verify_only ≡ true
    → Untouched st (import_read env opts manifest st).1
unfolding import_read
read-Untouched env opts none st v = (refl, refl)
read-Untouched env opts (some manifest) st v =
    present-Untouched env opts manifest (all_present env.source manifest.archives) st v

-- With verify-only an import leaves the disk and the file records as they were.
pub verify_only-Untouched :
    (env : Env) (opts : ImportOptions) (st : State)
    → opts.verify_only ≡ true
    → Untouched st (import_transfer env opts st).1
unfolding import_transfer
verify_only-Untouched env opts st v = read-Untouched env opts env.source.manifest st v
