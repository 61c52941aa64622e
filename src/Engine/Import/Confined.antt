-- ===== src/Engine/Import/Confined.antt =====
-- An import writes below the data directory only.
use ocp_offline.Prelude.{
  ◌≡◌, refl, ◌∙◌, ◌⊎◌, inl, inr, Text, text_eq, text_beq_iff, Bool, true, false, List, [], ◌∷◌,
  Option, some, Result, ok, err, ◌==◌, if◌then◌else◌, Bool-cases, Option-cases, lookup, insert,
  lookup-insert, nat_eq,
}
use ocp_offline.Safety.Path.{PathError, abs, safe_join_under}
use ocp_offline.Safety.Path.Containment.{RootedCwd}
use ocp_offline.Safety.Path.Guarantees.{Below, safe_join_under_confined}
use ocp_offline.Engine.Import.Archive.{
  TarItem, directory, regular, special, unreadable, LocalFs, Disk, Extracted, write_entry,
  extract_item, extract_items,
}

-- An absolute path below the absolute root, with names for elements.
abbrev pub IsConfined : Option Text → Text → Text → Type 0
IsConfined cwd root p = (root_abs : Text) × (abs cwd root ≡ some root_abs) × Below root_abs p

-- What a disk holds at a path is as before, or the path is below the root.
abbrev pub Spares : Option Text → Text → Text → Disk → Disk → Type 0
Spares cwd root p d d' = (lookup p d' ≡ lookup p d) ⊎ IsConfined cwd root p

module _ (cwd : Option Text) (root p : Text) where
  insert-Spares :
      (path content : Text) (d : Disk)
      → IsConfined cwd root path
      → Spares cwd root p d (insert path content d)
  insert-Spares path content d c = elim (Bool-cases (path == p)) [
    | inl e ↦ let q : path ≡ p = (text_beq_iff path p).0 e in inr (rw q at c)
    | inr e ↦ inl (rw (lookup-insert path p content d, e))
  ]

  write_entry-Spares :
      (fs : LocalFs) (path content : Text) (x : Extracted)
      → IsConfined cwd root path
      → Spares cwd root p x.disk (write_entry fs path content x).disk
  unfolding write_entry
  write_entry-Spares fs path content x c = elim (Bool-cases (fs.can_make_parent path)) [
    | inr e ↦ inl (rw e)
    | inl e ↦ elim (Bool-cases (fs.can_create path)) [
      | inr g ↦ inl (rw (e, g))
      | inl g ↦ elim (Option-cases (fs.broken_copy path)) [
        | inl b ↦ rw (e, g, b) (insert-Spares path content x.disk c)
        | inr (part, b) ↦ rw (e, g, b) (insert-Spares path part x.disk c)
      ]
    ]
  ]

  regular-Spares :
      (fs : LocalFs) (name content : Text) (x : Extracted) (r : Result PathError Text)
      → RootedCwd cwd
      → safe_join_under cwd root name ≡ r
      → Spares cwd root p x.disk (extract_item fs cwd root (regular name content) x).disk
  unfolding extract_item
  regular-Spares fs name content x (err e) w h = inl (rw (h, extract_item))
  regular-Spares fs name content x (ok path) w h =
      rw (h, extract_item)
        (write_entry-Spares fs path content x (safe_join_under_confined cwd root name w h))

  extract_item-Spares :
      (fs : LocalFs) (i : TarItem) (x : Extracted)
      → RootedCwd cwd
      → Spares cwd root p x.disk (extract_item fs cwd root i x).disk
  extract_item-Spares fs (directory name) x w = unfold extract_item in inl refl
  extract_item-Spares fs (special name) x w = unfold extract_item in inl refl
  extract_item-Spares fs unreadable x w = unfold extract_item in inl refl
  extract_item-Spares fs (regular name content) x w = regular-Spares fs name content x _ w refl

  pub Spares-trans :
      (a b c : Disk) → Spares cwd root p a b → Spares cwd root p b c → Spares cwd root p a c
  Spares-trans a b c (inr h) k = inr h
  Spares-trans a b c (inl h) (inr k) = inr k
  Spares-trans a b c (inl h) (inl k) = inl (k ∙ h)

  pub pick-Spares :
      (b : Bool) (d : Disk) (u v : Extracted)
      → Spares cwd root p d u.disk
      → Spares cwd root p d v.disk
      → Spares cwd root p d (if b then u else v).disk
  pick-Spares true d u v h k = h
  pick-Spares false d u v h k = k

  -- Extracting an archive, to its end or to a failure, changes the disk below the data directory
  -- only, whatever the names, types and contents of its entries; the working directory is a rooted
  -- path.
  pub extract_items-Spares :
      (fs : LocalFs) (items : List TarItem) (x : Extracted)
      → RootedCwd cwd
      → Spares cwd root p x.disk (extract_items fs cwd root items x).disk
  unfolding extract_items
  extract_items-Spares fs [] x w = inl refl
  extract_items-Spares fs (i ∷ is') x w =
      let x' = extract_item fs cwd root i x in
      let here = extract_item-Spares fs i x w in
      pick-Spares x'.failed x.disk x' (extract_items fs cwd root is' x') here
        (Spares-trans x.disk x'.disk _ here (extract_items-Spares fs is' x' w))
