-- ===== src/Engine/Export/Contents.antt =====
-- The archives of an export hold its files: each once, in order.
use ocp_offline.Prelude.{
  ℕ, ◌+◌, ◌≡◌, refl, ap, sym, ◌∙◌, List, [], ◌∷◌, ◌++◌, append_assoc, append-nil, map, ok, arith,
  >>=-eq-ok, Bool-cases, false, Option-cases, inl, inr,
}
use ocp_offline.Engine.Export.{
  Media, FileEntry, Archive, Writer, open_archive, close_archive, roll, add_file, add_files, pack,
  archive_name, tar_path, sealed_archive, exceeds, add_int64,
}

abbrev pub all_entries : List Archive → List FileEntry
all_entries [] = []
all_entries (a ∷ as') = a.entries ++ all_entries as'

all_entries-append :
    (xs ys : List Archive) → all_entries (xs ++ ys) ≡ all_entries xs ++ all_entries ys
all_entries-append [] ys = refl
all_entries-append (a ∷ xs) ys = simp (all_entries-append xs ys, append_assoc)

-- An archive is listed with the paths of its entries.
abbrev pub ListsEntries : Archive → Type 0
ListsEntries a = a.info.files ≡ map tar_path a.entries

pub record Closed (w : Writer) (closed : List Archive) : Type 0 where
  pub archive : Archive
  pub appended : closed ≡ w.closed ++ archive ∷ []
  pub entries : archive.entries ≡ w.current
  pub lists : ListsEntries archive
  pub named : archive.info.name ≡ archive_name w.num

pub close_archive-Closed :
    (m : Media) (w : Writer) {closed : List Archive}
    → close_archive m w ≡ ok closed
    → Closed w closed
unfolding close_archive
close_archive-Closed m w h = elim (Option-cases (m.sealed w.num w.current)) [
  | inl e ↦ absurd (ground arith)
  | inr (s, e) ↦ record {
    archive = sealed_archive w s.0 s.1;
    appended = ground arith;
    entries = refl;
    lists = refl;
    named = refl;
  }
]

-- What is on the medium and in the open archive.
abbrev pub written : Writer → List FileEntry
written w = all_entries w.closed ++ w.current

close-entries :
    (m : Media) (w : Writer) {closed : List Archive}
    → close_archive m w ≡ ok closed
    → all_entries closed ≡ written w
close-entries m w h =
    let c = close_archive-Closed m w h in
    rw (c.appended, all_entries-append w.closed (c.archive ∷ []), c.entries, append-nil)

-- A roll leaves the writer alone, or closes its archive and opens an empty one.
pub data Rolled (m : Media) (split_size : ℕ) (w : Writer) (f : FileEntry) (w' : Writer)
    : Type 0 where
  kept : exceeds split_size w.current_size f.size ≡ false → w' ≡ w → Rolled m split_size w f w'
  rolled :
      (closed : List Archive)
      → close_archive m w ≡ ok closed
      → w' ≡ record { num = w.num + 1; current_size = 0; current = []; closed = closed }
      → Rolled m split_size w f w'

pub opened :
    (m : Media) (n : ℕ) (closed : List Archive) {w : Writer}
    → open_archive m n closed ≡ ok w
    → w ≡ record { num = n; current_size = 0; current = []; closed = closed }
unfolding open_archive
opened m n closed h = ground arith

pub roll-Rolled :
    (m : Media) (split_size : ℕ) (w : Writer) (f : FileEntry) {w' : Writer}
    → roll m split_size w f ≡ ok w'
    → Rolled m split_size w f w'
unfolding roll
roll-Rolled m split_size w f h = elim (Bool-cases (exceeds split_size w.current_size f.size)) [
  | inl e ↦
      let (closed, c, o) = >>=-eq-ok (close_archive m w) _ (rw e at h) in
      rolled closed c (opened m (w.num + 1) closed o)
  | inr e ↦ kept e (ground arith)
]

-- One file added: the writer after the roll, with the file behind its entries.
pub record Added (m : Media) (split_size : ℕ) (w : Writer) (f : FileEntry) (w'' : Writer)
    : Type 0 where
  pub after_roll : Writer
  pub roll_step : Rolled m split_size w f after_roll
  pub result : w'' ≡ record after_roll {
    current_size = add_int64 after_roll.current_size f.size;
    current = after_roll.current ++ f ∷ [];
  }

pub add_file-Added :
    (m : Media) (split_size : ℕ) (w : Writer) (f : FileEntry) {w'' : Writer}
    → add_file m split_size w f ≡ ok w''
    → Added m split_size w f w''
unfolding add_file
add_file-Added m split_size w f h = elim (Bool-cases (m.is_done f)) [
  | inl e ↦ absurd (ground arith)
  | inr e ↦
      let (w', r, k) = >>=-eq-ok (roll m split_size w f) _ (rw e at h) in
      record { after_roll = w'; roll_step = roll-Rolled m split_size w f r; result = ground arith }
]

roll-written :
    (m : Media) (split_size : ℕ) (w : Writer) (f : FileEntry) (w' : Writer)
    → Rolled m split_size w f w'
    → written w' ≡ written w
roll-written m split_size w f w' (kept e h) = ap written h
roll-written m split_size w f w' (rolled closed c h) =
    ap written h ∙ append-nil (all_entries closed) ∙ close-entries m w c

add_file-written :
    (m : Media) (split_size : ℕ) (w : Writer) (f : FileEntry) {w'' : Writer}
    → add_file m split_size w f ≡ ok w''
    → written w'' ≡ written w ++ f ∷ []
add_file-written m split_size w f h =
    let a = add_file-Added m split_size w f h in
    ap written a.result
    ∙ sym (append_assoc (all_entries a.after_roll.closed) a.after_roll.current (f ∷ []))
    ∙ ap (λ es. es ++ f ∷ []) (roll-written m split_size w f a.after_roll a.roll_step)

add_files-written :
    (m : Media) (split_size : ℕ) (w : Writer) (fs : List FileEntry) {w' : Writer}
    → add_files m split_size w fs ≡ ok w'
    → written w' ≡ written w ++ fs
unfolding add_files
add_files-written m split_size w [] {w'} h =
    let e : w' ≡ w = ground arith in rw append-nil (ap written e)
add_files-written m split_size w (f ∷ fs) {w'} h =
    let (w1, a, r) = >>=-eq-ok (add_file m split_size w f) _ h in
    add_files-written m split_size w1 fs r
    ∙ ap (λ es. es ++ fs) (add_file-written m split_size w f a)
    ∙ append_assoc (written w) (f ∷ []) fs

-- The archives of a packing hold the files that were to be exported, each once and in order.
pub pack-entries :
    (m : Media) (split_size : ℕ) (files : List FileEntry) {archives : List Archive}
    → pack m split_size files ≡ ok archives
    → all_entries archives ≡ files
unfolding pack
pack-entries m split_size files h =
    let (w, o, h1) = >>=-eq-ok (open_archive m 1 []) _ h in
    let (w', a, c) = >>=-eq-ok (add_files m split_size w files) _ h1 in
    close-entries m w' c
    ∙ add_files-written m split_size w files a
    ∙ ap (λ es. es ++ files) (ap written (opened m 1 [] o))
