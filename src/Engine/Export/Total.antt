-- ===== src/Engine/Export/Total.antt =====
-- An export whose writes all succeed packs its files.
use ocp_offline.Prelude.{
  ℕ, ◌+◌, ◌^◌, ◌<◌, ◌≡◌, All, refl, Text, true, false, List, [], ◌∷◌, some, Result, ok, ◌>>=◌,
  Bool-cases, inl, inr,
}
use ocp_offline.Engine.Export.{
  Media, FileEntry, Archive, Writer, ExportError, open_archive, close_archive, roll, add_file,
  add_files, pack, exceeds,
}
use ocp_offline.Engine.Export.Contents.{all_entries, pack-entries}
use ocp_offline.Engine.Export.Splitting.{bytes, ArchiveFits, pack-ArchiveFits}
use ocp_offline.Engine.Export.Numbered.{Numbered, pack-Numbered}

-- Every archive can be created and closed, every file added, and nothing cancels the export.
pub record IsWorking (m : Media) : Type 0 where
  pub opens : (n : ℕ) → m.can_open n ≡ true
  pub adds : (f : FileEntry) → m.can_add f ≡ true
  pub runs : (f : FileEntry) → m.is_done f ≡ false
  pub seals : (n : ℕ) (es : List FileEntry) → (p : ℕ × Text) × (m.sealed n es ≡ some p)

module _ (m : Media) (split_size : ℕ) (w : IsWorking m) where
  abbrev Succeeds : {T : Type 0} → Result ExportError T → Type 0
  Succeeds {T} r = (x : T) × (r ≡ ok x)

  then-Succeeds :
      {S T : Type 0}
      → (r : Result ExportError S) (k : S → Result ExportError T) → Succeeds r
      → ((x : S) → Succeeds (k x))
      → Succeeds (r >>= k)
  then-Succeeds r k (x, e) h = let (y, g) = h x in (y, rw (e, g) refl)

  open-Succeeds : (n : ℕ) (closed : List Archive) → Succeeds (open_archive m n closed)
  unfolding open_archive
  open-Succeeds n closed = rw (w.opens n) (_, refl)

  close-Succeeds : (v : Writer) → Succeeds (close_archive m v)
  unfolding close_archive
  close-Succeeds v =
      let ((size, hash), e) = w.seals v.num v.current in rw (e, close_archive) (_, refl)

  roll-Succeeds : (v : Writer) (f : FileEntry) → Succeeds (roll m split_size v f)
  unfolding roll
  roll-Succeeds v f = elim (Bool-cases (exceeds split_size v.current_size f.size)) [
    | inl e ↦ rw e (
        then-Succeeds (close_archive m v) _ (close-Succeeds v)
          (λ closed. open-Succeeds (v.num + 1) closed))
    | inr e ↦ rw e (v, refl)
  ]

  add_file-Succeeds : (v : Writer) (f : FileEntry) → Succeeds (add_file m split_size v f)
  unfolding add_file
  add_file-Succeeds v f =
      rw (w.runs f) (
        then-Succeeds (roll m split_size v f) _ (roll-Succeeds v f) (λ v'. rw (w.adds f) (_, refl)))

  add_files-Succeeds : (fs : List FileEntry) (v : Writer) → Succeeds (add_files m split_size v fs)
  unfolding add_files
  add_files-Succeeds [] v = (v, refl)
  add_files-Succeeds (f ∷ fs) v =
      then-Succeeds (add_file m split_size v f) _ (add_file-Succeeds v f)
        (λ v'. add_files-Succeeds fs v')

pack-Succeeds :
    (m : Media) (split_size : ℕ) (files : List FileEntry)
    → IsWorking m
    → (archives : List Archive) × (pack m split_size files ≡ ok archives)
unfolding pack
pack-Succeeds m split_size files w =
    then-Succeeds m split_size w (open_archive m 1 []) _ (open-Succeeds m split_size w 1 []) (λ v.
      then-Succeeds m split_size w (add_files m split_size v files) _
        (add_files-Succeeds m split_size w files v) (λ v'. close-Succeeds m split_size w v'))

-- What an export promises of the archives of some files: together they hold the files, each once and
-- in order; the files of each fit the split size, or at most one of them is not empty; and the
-- archives have the names of the numbers 1, 2, 3 and so on.
pub record Packs (split_size : ℕ) (files : List FileEntry) (archives : List Archive) : Type 0 where
  pub entries : all_entries archives ≡ files
  pub fits : All (ArchiveFits split_size) archives
  pub numbered : Numbered 1 archives

-- Where every write succeeds, nothing cancels it and the files are below 2 ^ 63 bytes together, a
-- packing returns archives as promised: they hold the files, each once and in order, the files of
-- each fit the split size, or at most one of them is not empty, and they are numbered from 1 on.
pub pack_total :
    (m : Media) (split_size : ℕ) (files : List FileEntry)
    → IsWorking m
    → bytes files < 2 ^ 63
    → (archives : List Archive) × (pack m split_size files ≡ ok archives)
      × Packs split_size files archives
pack_total m split_size files w fit =
    let (archives, e) = pack-Succeeds m split_size files w in
    (
      archives,
      e,
      record {
        entries = pack-entries m split_size files e;
        fits = pack-ArchiveFits m split_size files fit e;
        numbered = pack-Numbered m split_size files e;
      },
    )
