-- ===== src/Engine/Import/Repos/Confined.antt =====
-- The directories for which createrepo_c is run are below the data directory, and so is what it
-- changes.
use mathlib.Core.Option.{some_inj}
use ocp_offline.Prelude.{
  ◌≡◌, refl, ap, ◌∙◌, ◌⊎◌, inl, inr, Text, text_eq, nat_eq, List, [], ◌∷◌, ◌++◌, append_assoc,
  foldl, Option, none, some, Result, ok, err, All, All-append, Bool-cases, lookup, subst,
}
use ocp_offline.Safety.Path.{PathError, clean_relative_path, safe_join_under, join}
use ocp_offline.Safety.Path.Containment.{RootedCwd}
use ocp_offline.Safety.Path.Split.{split}
use ocp_offline.Safety.Path.Guarantees.{Below, safe_join_under_confined}
use ocp_offline.Engine.Export.{ManifestFile, TransferManifest}
use ocp_offline.Engine.Import.Archive.{Disk}
use ocp_offline.Engine.Import.Confined.{IsConfined, Spares, Spares-trans}
use ocp_offline.Engine.Import.Repos.{
  is_rpm, first_part, dir_under, dir_of, is_seen, add_dir, add_repo_dir, collect_repo_dirs,
}

Below-trans : (a b c : Text) → Below a b → Below b c → Below a c
Below-trans a b c h k = record {
  names = h.names ++ k.names;
  root_rooted = h.root_rooted;
  rooted = k.rooted;
  elements = k.elements ∙ ap (λ es. es ++ k.names) h.elements ∙ append_assoc _ h.names k.names;
  all_names = k.all_names;
  text = k.text;
}

module _ (cwd : Option Text) (root : Text) (w : RootedCwd cwd) where
  abbrev pub AreConfined : List Text → Type 0
  AreConfined = All (λ dir. IsConfined cwd root dir)

  dir_under-IsConfined :
      (r : Text) (joined : Result PathError Text) (dir : Text)
      → safe_join_under cwd root r ≡ joined
      → dir_under joined ≡ some dir
      → IsConfined cwd root dir
  dir_under-IsConfined r (err e) dir j h = absurd (cc h)
  dir_under-IsConfined r (ok at) dir j h =
      subst (λ d. IsConfined cwd root d) (some_inj.0 h) (safe_join_under_confined cwd root r w j)

  dir_of-IsConfined :
      (provider : Text) (cleaned : Result PathError Text) (dir : Text)
      → dir_of cwd root provider cleaned ≡ some dir
      → IsConfined cwd root dir
  dir_of-IsConfined provider (err e) dir h = absurd (cc h)
  dir_of-IsConfined provider (ok path) dir h =
      dir_under-IsConfined (join provider (first_part (split 47 path))) _ dir refl h

  add_dir-AreConfined :
      (o : Option Text) (dirs : List Text)
      → ((dir : Text) → o ≡ some dir → IsConfined cwd root dir)
      → AreConfined dirs
      → AreConfined (add_dir o dirs)
  add_dir-AreConfined none dirs c h = h
  add_dir-AreConfined (some dir) dirs c h = elim (Bool-cases (is_seen dir dirs)) [
    | inl e ↦ rw e h
    | inr e ↦ rw e (All-append _ dirs (dir ∷ []) h (c dir refl, tt))
  ]

  add_repo_dir-AreConfined :
      (manifest : TransferManifest) (dirs : List Text) (f : ManifestFile)
      → AreConfined dirs
      → AreConfined (add_repo_dir cwd root manifest dirs f)
  unfolding add_repo_dir
  add_repo_dir-AreConfined manifest dirs f h =
      elim (Bool-cases (is_rpm (lookup f.provider manifest.providers))) [
        | inl e ↦ rw e (
            add_dir-AreConfined _ dirs (dir_of-IsConfined f.provider (clean_relative_path f.path))
              h)
        | inr e ↦ rw e h
      ]

  all_dirs-AreConfined :
      (manifest : TransferManifest) (fs : List ManifestFile) (dirs : List Text)
      → AreConfined dirs
      → AreConfined (foldl (λ dirs f. add_repo_dir cwd root manifest dirs f) dirs fs)
  all_dirs-AreConfined manifest [] dirs h = h
  all_dirs-AreConfined manifest (f ∷ fs) dirs h =
      all_dirs-AreConfined manifest fs _ (add_repo_dir-AreConfined manifest dirs f h)

  -- Every directory for which createrepo_c is run is below the data directory.
  pub collect_repo_dirs-AreConfined :
      (manifest : TransferManifest) → AreConfined (collect_repo_dirs cwd root manifest)
  unfolding collect_repo_dirs
  collect_repo_dirs-AreConfined manifest =
      all_dirs-AreConfined manifest manifest.file_inventory [] tt

  module _ (p : Text) (createrepo : Text → Disk → Disk)
      (keeps : (dir : Text) (d : Disk)
        → (lookup p (createrepo dir d) ≡ lookup p d) ⊎ Below dir p) where
    createrepo-Spares :
        (dir : Text) (d : Disk) → IsConfined cwd root dir → Spares cwd root p d (createrepo dir d)
    createrepo-Spares dir d (root_abs, e, b) = elim (keeps dir d) [
      | inl h ↦ inl h
      | inr c ↦ inr (root_abs, e, Below-trans root_abs dir p b c)
    ]

    pub rebuilt-Spares :
        (dirs : List Text) (d : Disk)
        → AreConfined dirs
        → Spares cwd root p d (foldl (λ d dir. createrepo dir d) d dirs)
    rebuilt-Spares [] d h = inl refl
    rebuilt-Spares (dir ∷ dirs) d h =
        Spares-trans cwd root p d (createrepo dir d) _ (createrepo-Spares dir d h.0)
          (rebuilt-Spares dirs (createrepo dir d) h.1)
