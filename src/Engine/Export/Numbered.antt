-- ===== src/Engine/Export/Numbered.antt =====
-- The archives of an export are numbered in order.
use ocp_offline.Prelude.{
  ℕ, ◌+◌, ◌≡◌, refl, sym, ap, ◌∙◌, subst, List, [], ◌∷◌, ◌++◌, ok, arith, >>=-eq-ok, length,
  length-append,
}
use ocp_offline.Engine.Export.{
  Media, FileEntry, Archive, Writer, archive_name, open_archive, close_archive, add_file, add_files,
  pack,
}
use ocp_offline.Engine.Export.Contents.{
  close_archive-Closed, opened, Rolled, kept, rolled, add_file-Added,
}

-- The archives have the names of the numbers from one on.
abbrev pub Numbered : ℕ → List Archive → Type 0
Numbered n [] = Unit
Numbered n (a ∷ as') = (a.info.name ≡ archive_name n) × Numbered (n + 1) as'

Numbered-append :
    (n : ℕ) (xs : List Archive) (a : Archive)
    → Numbered n xs
    → a.info.name ≡ archive_name (n + length xs)
    → Numbered n (xs ++ a ∷ [])
Numbered-append n [] a h e =
    let same : n + 0 ≡ n = omega arith in (e ∙ ap (λ k. archive_name k) same, tt)
Numbered-append n (x ∷ xs) a h e =
    let same : n + length (x ∷ xs) ≡ (n + 1) + length xs = omega arith in
    (h.0, Numbered-append (n + 1) xs a h.1 (e ∙ ap (λ k. archive_name k) same))

-- The closed archives are numbered, and the open one has the next number.
abbrev IsNumbered : Writer → Type 0
IsNumbered w = Numbered 1 w.closed × (w.num ≡ 1 + length w.closed)

close-Numbered :
    (m : Media) (w : Writer) {closed : List Archive}
    → IsNumbered w
    → close_archive m w ≡ ok closed
    → Numbered 1 closed × (w.num + 1 ≡ 1 + length closed)
close-Numbered m w (h, e) k =
    let c = close_archive-Closed m w k in
    rw c.appended (
      Numbered-append 1 w.closed c.archive h (c.named ∙ ap (λ n. archive_name n) e),
      omega (arith, e, length-append w.closed (c.archive ∷ [])),
    )

Rolled-IsNumbered :
    (m : Media) (split_size : ℕ) (w : Writer) (f : FileEntry) (w' : Writer)
    → IsNumbered w
    → Rolled m split_size w f w'
    → IsNumbered w'
Rolled-IsNumbered m split_size w f w' n (kept e h) = subst (λ v. IsNumbered v) (sym h) n
Rolled-IsNumbered m split_size w f w' n (rolled closed c h) =
    subst (λ v. IsNumbered v) (sym h) (close-Numbered m w n c)

add_files-IsNumbered :
    (m : Media) (split_size : ℕ) (w : Writer) (fs : List FileEntry) {w' : Writer}
    → IsNumbered w
    → add_files m split_size w fs ≡ ok w'
    → IsNumbered w'
unfolding add_files
add_files-IsNumbered m split_size w [] {w'} n h =
    let e : w ≡ w' = ground arith in subst (λ v. IsNumbered v) e n
add_files-IsNumbered m split_size w (f ∷ fs) n h =
    let (w1, a, r) = >>=-eq-ok (add_file m split_size w f) _ h in
    let added = add_file-Added m split_size w f a in
    add_files-IsNumbered m split_size w1 fs
      (subst (λ v. IsNumbered v) (sym added.result)
        (Rolled-IsNumbered m split_size w f added.after_roll n added.roll_step))
      r

-- The archives of a packing have the names of the numbers 1, 2, 3 and so on.
pub pack-Numbered :
    (m : Media) (split_size : ℕ) (files : List FileEntry) {archives : List Archive}
    → pack m split_size files ≡ ok archives
    → Numbered 1 archives
unfolding pack
pack-Numbered m split_size files h =
    let (w, o, h1) = >>=-eq-ok (open_archive m 1 []) _ h in
    let (w', a, c) = >>=-eq-ok (add_files m split_size w files) _ h1 in
    let n : IsNumbered w = subst (λ v. IsNumbered v) (sym (opened m 1 [] o)) (tt, refl) in
    (close-Numbered m w' (add_files-IsNumbered m split_size w files n a) c).0
