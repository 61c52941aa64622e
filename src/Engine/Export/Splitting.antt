-- ===== src/Engine/Export/Splitting.antt =====
-- The split size bounds every archive but those of one large file.
use ocp_offline.Prelude.{
  ℕ, ◌+◌, ◌^◌, ◌≤◌, ◌<◌, ◌≡◌, refl, sym, ◌⊎◌, inl, inr, List, [], ◌∷◌, ◌++◌, ok, arith, >>=-eq-ok,
  ltb, if◌then◌else◌, All, All-append, sum_by, sum_by-append, false, subst,
}
use ocp_offline.Engine.Export.{
  Media, FileEntry, Archive, Writer, open_archive, close_archive, add_file, add_files, pack,
  exceeds,
}
use ocp_offline.Engine.Export.Contents.{close_archive-Closed, Rolled, kept, rolled, add_file-Added}

abbrev pub bytes : List FileEntry → ℕ
bytes = sum_by (λ f. f.size)

-- The number of files that are not empty.
abbrev pub full_files : List FileEntry → ℕ
full_files = sum_by (λ f. if ltb 0 f.size then 1 else 0)

-- The entries fit the split size, or at most one of them is not empty.
abbrev pub Fits : ℕ → List FileEntry → Type 0
Fits split_size es = (bytes es ≤ split_size) ⊎ (full_files es ≤ 1)

abbrev pub ArchiveFits : ℕ → Archive → Type 0
ArchiveFits split_size a = Fits split_size a.entries

record IsBounded (split_size : ℕ) (w : Writer) : Type 0 where
  counted : w.current_size ≡ bytes w.current
  fits : Fits split_size w.current
  closed_fit : All (ArchiveFits split_size) w.closed

full_files-zero : (es : List FileEntry) → bytes es ≡ 0 → full_files es ≡ 0
full_files-zero [] h = refl
full_files-zero (f ∷ es) h = ground (arith, full_files-zero es)

close-fit :
    (m : Media) (split_size : ℕ) (w : Writer) {closed : List Archive}
    → IsBounded split_size w
    → close_archive m w ≡ ok closed
    → All (ArchiveFits split_size) closed
close-fit m split_size w b h =
    let c = close_archive-Closed m w h in
    rw c.appended (
      All-append (ArchiveFits split_size) w.closed (c.archive ∷ []) b.closed_fit
        (subst (Fits split_size) (sym c.entries) b.fits, tt))

IsBounded-empty :
    (split_size n : ℕ) (closed : List Archive)
    → All (ArchiveFits split_size) closed
    → IsBounded split_size (record { num = n; current_size = 0; current = []; closed = closed })
IsBounded-empty split_size n closed h = record {
  counted = refl;
  fits = inl (omega arith);
  closed_fit = h;
}

-- The guard under which a file goes into the open archive.
abbrev Room : ℕ → Writer → FileEntry → Type 0
Room split_size w f = (w.current_size ≡ 0) ⊎ (w.current_size + f.size ≤ split_size)

Rolled-IsBounded :
    (m : Media) (split_size : ℕ) (w : Writer) (f : FileEntry) (w' : Writer)
    → IsBounded split_size w
    → bytes w.current + f.size < 2 ^ 63
    → Rolled m split_size w f w'
    → IsBounded split_size w' × Room split_size w' f × (bytes w'.current ≤ bytes w.current)
Rolled-IsBounded m split_size w f w' b fit (kept e h) =
    subst (λ v. IsBounded split_size v × Room split_size v f × (bytes v.current ≤ bytes w.current))
      (sym h)
      (b, room_of w.current_size f.size split_size (omega (arith, b.counted)) e, omega arith)
  where
    room_of : (a n s : ℕ) → a + n < 2 ^ 63 → exceeds s a n ≡ false → (a ≡ 0) ⊎ (a + n ≤ s)
    room_of a n s k g = ground arith
Rolled-IsBounded m split_size w f w' b fit (rolled closed c h) =
    subst (λ v. IsBounded split_size v × Room split_size v f × (bytes v.current ≤ bytes w.current))
      (sym h)
      (
        IsBounded-empty split_size (w.num + 1) closed (close-fit m split_size w b c),
        inl refl,
        omega arith,
      )

Fits-behind :
    (split_size n : ℕ) (es : List FileEntry) (f : FileEntry)
    → n ≡ bytes es
    → (n ≡ 0) ⊎ (n + f.size ≤ split_size)
    → Fits split_size (es ++ f ∷ [])
Fits-behind split_size n es f c (inl z) = inr (
    ground (
      arith,
      sum_by-append (λ (g : FileEntry). if ltb 0 g.size then 1 else 0) es (f ∷ []),
      full_files-zero es,
    ))
Fits-behind split_size n es f c (inr r) =
    inl (omega (arith, sum_by-append (λ (g : FileEntry). g.size) es (f ∷ [])))

add_file-IsBounded :
    (m : Media) (split_size : ℕ) (w : Writer) (f : FileEntry) {w'' : Writer}
    → IsBounded split_size w
    → bytes w.current + f.size < 2 ^ 63
    → add_file m split_size w f ≡ ok w''
    → IsBounded split_size w'' × (bytes w''.current ≤ bytes w.current + f.size)
add_file-IsBounded m split_size w f b fit h =
    let a = add_file-Added m split_size w f h in
    let (b', room, less) = Rolled-IsBounded m split_size w f a.after_roll b fit a.roll_step in
    let sum = sum_by-append (λ (g : FileEntry). g.size) a.after_roll.current (f ∷ []) in
    subst (λ v. IsBounded split_size v × (bytes v.current ≤ bytes w.current + f.size))
      (sym a.result)
      (
        record {
          counted = omega (arith, b'.counted, sum, less, fit);
          fits =
              Fits-behind split_size a.after_roll.current_size a.after_roll.current f b'.counted
                room;
          closed_fit = b'.closed_fit;
        },
        omega (arith, sum, less),
      )

add_files-IsBounded :
    (m : Media) (split_size : ℕ) (w : Writer) (fs : List FileEntry) {w' : Writer}
    → IsBounded split_size w
    → bytes w.current + bytes fs < 2 ^ 63
    → add_files m split_size w fs ≡ ok w'
    → IsBounded split_size w'
unfolding add_files
add_files-IsBounded m split_size w [] {w'} b fit h =
    let e : w ≡ w' = ground arith in subst (IsBounded split_size) e b
add_files-IsBounded m split_size w (f ∷ fs) b fit h =
    let (w1, a, r) = >>=-eq-ok (add_file m split_size w f) _ h in
    let (b1, less) = add_file-IsBounded m split_size w f b (omega (arith, fit)) a in
    add_files-IsBounded m split_size w1 fs b1 (omega (arith, fit, less)) r

-- Where the files are below 2 ^ 63 bytes together, so that the sum in an int64 does not wrap, the
-- files of every archive fit the split size together, or at most one of them is not empty.
pub pack-ArchiveFits :
    (m : Media) (split_size : ℕ) (files : List FileEntry) {archives : List Archive}
    → bytes files < 2 ^ 63
    → pack m split_size files ≡ ok archives
    → All (ArchiveFits split_size) archives
unfolding pack open_archive
pack-ArchiveFits m split_size files fit h =
    let (w, o, h1) = >>=-eq-ok (open_archive m 1 []) _ h in
    let (w', a, c) = >>=-eq-ok (add_files m split_size w files) _ h1 in
    let e : w ≡ record { num = 1; current_size = 0; current = []; closed = [] } = ground arith in
    close-fit m split_size w'
      (add_files-IsBounded m split_size w files (rw e (IsBounded-empty split_size 1 [] tt))
        (rw e (omega (arith, fit))) a)
      c
