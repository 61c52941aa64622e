-- ===== src/Engine/Import/Reach.antt =====
-- A whole import writes below the data directory only.
use ocp_offline.Prelude.{
  refl, ap, inl, ◌⊎◌, ◌≡◌, text_eq, nat_eq, Text, Bool, true, false, List, [], ◌∷◌, Option, none,
  some, codes, ◌++◌, Result, ok, err, ltb, if◌then◌else◌, lookup,
}
use ocp_offline.Safety.Path.{PathError, safe_join_under, join}
use ocp_offline.Safety.Path.Containment.{RootedCwd}
use ocp_offline.Store.Models.{Transfer}
use ocp_offline.Engine.Export.{ArchiveInfo, TransferManifest, ManifestFile}
use ocp_offline.Safety.Path.Guarantees.{Below}
use ocp_offline.Engine.Import.Repos.{collect_repo_dirs}
use ocp_offline.Engine.Import.Repos.Confined.{collect_repo_dirs-AreConfined, rebuilt-Spares}
use ocp_offline.Engine.Import.Archive.{TarItem, Disk, Extracted}
use ocp_offline.Engine.Import.Confined.{Spares, extract_items-Spares, Spares-trans}
use ocp_offline.Engine.Import.Guards.{Untouched, validated-Untouched, save-Untouched}
use ocp_offline.Engine.Import.{
  Env, State, ImportOptions, ImportError, start_transfer, validate_all, save_transfer,
  extract_opened, extract_archive, extract_all, record_at, record_file, extracted_state,
  failed_state, ended, completed, rebuild_repos, after_extraction, record_files, finish_import,
  after_validation, import_present, import_read, import_transfer, all_present, is_member,
}

module _ (env : Env) (p : Text) (w : RootedCwd env.cwd)
    (keeps : (dir : Text) (d : Disk)
      → (lookup p (env.createrepo dir d) ≡ lookup p d) ⊎ Below dir p) where
  -- Between two states, the disk changed below the data directory only.
  abbrev Keeps : State → State → Type 0
  Keeps st st' = Spares env.cwd env.data_dir p st.disk st'.disk

  Keeps-trans : (a b c : State) → Keeps a b → Keeps b c → Keeps a c
  Keeps-trans a b c h k = Spares-trans env.cwd env.data_dir p a.disk b.disk c.disk h k

  pick-Keeps : (b : Bool) (st u v : State) → Keeps st u → Keeps st v → Keeps st (if b then u else v)
  pick-Keeps true st u v h k = h
  pick-Keeps false st u v h k = k

  Untouched-Keeps : (st st' : State) → Untouched st st' → Keeps st st'
  Untouched-Keeps st st' (d, f) = inl (ap (λ x. lookup p x) d)

  extract_opened-Spares :
      (items : Option (List TarItem)) (d : Disk)
      → Spares env.cwd env.data_dir p d (extract_opened env items d).disk
  unfolding extract_opened
  extract_opened-Spares none d = inl refl
  extract_opened-Spares (some items) d =
      extract_items-Spares env.cwd env.data_dir p env.fs items
        (record { count = 0; bytes = 0; failed = false; disk = d }) w

  extract_archive-Spares :
      (name : Text) (d : Disk) → Spares env.cwd env.data_dir p d (extract_archive env name d).disk
  unfolding extract_archive
  extract_archive-Spares name d = extract_opened-Spares (env.source.items name) d

  record_at-Keeps :
      (f : ManifestFile) (r : Result PathError Text) (st : State) → Keeps st (record_at env f r st)
  unfolding record_at
  record_at-Keeps f (err e) st = inl refl
  record_at-Keeps f (ok path) st =
      pick-Keeps (env.absent path st.disk) st st _ (inl refl) (inl refl)

  record_file-Keeps : (f : ManifestFile) (st : State) → Keeps st (record_file env f st)
  unfolding record_file
  record_file-Keeps f st =
      record_at-Keeps f (safe_join_under env.cwd env.data_dir (join f.provider f.path)) st

  record_files-Keeps : (fs : List ManifestFile) (st : State) → Keeps st (record_files env fs st)
  unfolding record_files
  record_files-Keeps [] st = inl refl
  record_files-Keeps (f ∷ fs) st =
      Keeps-trans st (record_file env f st) (record_files env fs (record_file env f st))
        (record_file-Keeps f st) (record_files-Keeps fs (record_file env f st))

  save-Keeps : (g : Transfer → Transfer) (st : State) → Keeps st (save_transfer env g st)
  save-Keeps g st = Untouched-Keeps st (save_transfer env g st) (save-Untouched env g st)

  -- `pick-Keeps` on results that come with a state.
  choose-Keeps :
      {T : Type 0}
      → (b : Bool) (st : State) (u v : T × State) → Keeps st u.1
      → Keeps st v.1
      → Keeps st (if b then u else v).1
  choose-Keeps true st u v h k = h
  choose-Keeps false st u v h k = k

  failed-Keeps :
      (name : Text) (st : State) (x : Extracted)
      → Spares env.cwd env.data_dir p st.disk x.disk
      → Keeps st (failed_state env name st x)
  failed-Keeps name st x h =
      let mid : State = record st {
        disk = x.disk;
        report = record (st.report) { errors = st.report.errors ++ name ∷ [] };
      } in
      Keeps-trans st mid (failed_state env name st x) h
        (save-Keeps (ended env (codes "failed") name) mid)

  extract_all-Keeps : (as' : List ArchiveInfo) (st : State) → Keeps st (extract_all env as' st).1
  unfolding extract_all
  extract_all-Keeps [] st = inl refl
  extract_all-Keeps (a ∷ as') st =
      let x : Extracted = extract_archive env a.name st.disk in
      let here : Spares env.cwd env.data_dir p st.disk x.disk =
        extract_archive-Spares a.name st.disk in
      let st' : State = extracted_state st x in
      choose-Keeps (env.source.done_extracting a.name) st _ _ (inl refl) (
        choose-Keeps (is_member a.name st.skipped) st _ _ (extract_all-Keeps as' st) (
          choose-Keeps x.failed st _ _ (failed-Keeps a.name st x here)
            (Keeps-trans st st' (extract_all env as' st').1 here (extract_all-Keeps as' st'))))

  rebuild-Keeps :
      (manifest : TransferManifest) (st : State) → Keeps st (rebuild_repos env manifest st)
  rebuild-Keeps manifest st =
      rebuilt-Spares env.cwd env.data_dir w p env.createrepo keeps
        (collect_repo_dirs env.cwd env.data_dir manifest) st.disk
        (collect_repo_dirs-AreConfined env.cwd env.data_dir w manifest)

  after_extraction-Keeps :
      (manifest : TransferManifest) (st : State) (r : Result ImportError (Unit {0}) × State)
      → Keeps st r.1
      → Keeps st (after_extraction env manifest r).1
  unfolding after_extraction
  after_extraction-Keeps manifest st (err e, st') h = h
  after_extraction-Keeps manifest st (ok u, st') h =
      let rebuilt : State = rebuild_repos env manifest st' in
      let st'' : State = record_files env manifest.file_inventory rebuilt in
      Keeps-trans st st' (completed env st'') h (
        Keeps-trans st' rebuilt (completed env st'') (rebuild-Keeps manifest st') (
          Keeps-trans rebuilt st'' (completed env st'')
            (record_files-Keeps manifest.file_inventory rebuilt) (save-Keeps _ st'')))

  finish-Keeps :
      (opts : ImportOptions) (manifest : TransferManifest) (st : State)
      → Keeps st (finish_import env opts manifest st).1
  unfolding finish_import
  finish-Keeps opts manifest st =
      choose-Keeps (ltb 0 st.report.archives_failed) st _ _ (save-Keeps _ st) (
        choose-Keeps opts.verify_only st _ _ (save-Keeps _ st) (
          after_extraction-Keeps manifest st (extract_all env manifest.archives st)
            (extract_all-Keeps manifest.archives st)))

  after-Keeps :
      (opts : ImportOptions) (manifest : TransferManifest) (st : State)
      (r : Result ImportError (Unit {0}) × State)
      → Keeps st r.1
      → Keeps st (after_validation env opts manifest r).1
  unfolding after_validation
  after-Keeps opts manifest st (err e, st') h = h
  after-Keeps opts manifest st (ok u, st') h =
      Keeps-trans st st' (finish_import env opts manifest st').1 h (finish-Keeps opts manifest st')

  present-Keeps :
      (opts : ImportOptions) (manifest : TransferManifest) (missing : Option Text) (st : State)
      → Keeps st (import_present env opts manifest missing st).1
  unfolding import_present
  present-Keeps opts manifest (some m) st = inl refl
  present-Keeps opts manifest none st =
      let r : Result ImportError (Unit {0}) × State =
        validate_all env opts manifest.archives (start_transfer env opts st) in
      after-Keeps opts manifest st r
        (Untouched-Keeps st r.1 (validated-Untouched env opts manifest.archives st))

  read-Keeps :
      (opts : ImportOptions) (manifest : Option TransferManifest) (st : State)
      → Keeps st (import_read env opts manifest st).1
  unfolding import_read
  read-Keeps opts none st = inl refl
  read-Keeps opts (some manifest) st =
      present-Keeps opts manifest (all_present env.source manifest.archives) st

-- Whatever the medium holds and however an import ends, what the disk holds at a path is as before
-- unless the path is below the data directory. createrepo_c is taken to change only what is below the
-- directory that it is run for; the working directory is a rooted path.
pub import_transfer-Spares :
    (env : Env) (opts : ImportOptions) (st : State) (p : Text)
    → RootedCwd env.cwd
    → ((dir : Text) (d : Disk) → (lookup p (env.createrepo dir d) ≡ lookup p d) ⊎ Below dir p)
    → Spares env.cwd env.data_dir p st.disk (import_transfer env opts st).1.disk
unfolding import_transfer
import_transfer-Spares env opts st p w keeps = read-Keeps env p w keeps opts env.source.manifest st
