-- ===== src/Provider/Ocp/Checksums/RoundTrip.antt =====
-- A sha256sum file, written and read back.
use ocp_offline.Prelude.{
  ◌≡◌, ◌≢◌, ◌+◌, ◌<◌, ℕ, refl, sym, ap, ◌∙◌, Text, text_eq, nat_eq, false, [], ◌∷◌, ◌++◌,
  append_assoc, append-nil, foldl, All, All-append, is_empty, arith, Map, insert, lt→ltb, length,
  length-append,
}
use ocp_offline.Safety.Path.Split.{split, Lacks, split-append}
use ocp_offline.Provider.Ocp.Checksums.{
  is_space, fields_from, wide_space, blanked, fields, scan_lines, add_fields, parse_checksum_file,
}

-- A word: not empty, in ASCII, and without space.
pub record IsWord (w : Text) : Type 0 where
  pub nonempty : is_empty w ≡ false
  pub solid : All (λ c. is_space c ≡ false) w
  pub ascii : All (λ c. c < 128) w

-- What `sha256sum` writes of files and their hashes.
unfoldable pub print_checksums : Map Text → Text
print_checksums [] = []
print_checksums ((file, hash) ∷ files) = (hash ++ 32 ∷ 32 ∷ file) ++ 10 ∷ print_checksums files

fields-word :
    (word w s : Text)
    → All (λ c. is_space c ≡ false) w
    → fields_from word (w ++ s) ≡ fields_from (word ++ w) s
unfolding fields_from
fields-word word [] s h = rw (append-nil word) refl
fields-word word (c ∷ w) s h =
    rw (h.0, ← append_assoc word (c ∷ []) w) (fields-word (word ++ c ∷ []) w s h.1)

fields-one : (word : Text) → IsWord word → fields_from [] word ≡ word ∷ []
unfolding fields_from
fields-one word w =
    ap (λ t. fields_from [] t) (sym (append-nil word))
    ∙ fields-word [] word [] w.solid
    ∙ rw w.nonempty refl

fields-line :
    (hash file : Text)
    → IsWord hash
    → IsWord file
    → fields_from [] (hash ++ 32 ∷ 32 ∷ file) ≡ hash ∷ file ∷ []
unfolding fields_from
fields-line hash file h f =
    fields-word [] hash (32 ∷ 32 ∷ file) h.solid ∙ rw (h.nonempty, fields-one file f) refl

word-Lacks : (w : Text) → All (λ c. is_space c ≡ false) w → Lacks 10 w
word-Lacks [] h = tt
word-Lacks (c ∷ w) h = ((λ e. absurd (cc (rw e at h.0))), word-Lacks w h.1)

line-Lacks : (hash file : Text) → IsWord hash → IsWord file → Lacks 10 (hash ++ 32 ∷ 32 ∷ file)
line-Lacks hash file h f =
    All-append (λ c. c ≢ 10) hash _ (word-Lacks hash h.solid)
      (
        (λ e. absurd (omega (arith, e))),
        ((λ e. absurd (omega (arith, e))), word-Lacks file f.solid),
      )

wide_space-ascii : (c : ℕ) (s : Text) → c < 128 → wide_space (c ∷ s) ≡ 0
unfolding wide_space
wide_space-ascii c [] h = refl
wide_space-ascii c (a ∷ []) h = ground arith
wide_space-ascii c (a ∷ b ∷ s) h = ground arith

blanked-ascii : (s : Text) → All (λ c. c < 128) s → blanked 0 s ≡ s
unfolding blanked
blanked-ascii [] h = refl
blanked-ascii (c ∷ s) h = rw (wide_space-ascii c s h.0, blanked-ascii s h.1) refl

line-ascii :
    (hash file : Text) → IsWord hash → IsWord file → All (λ c. c < 128) (hash ++ 32 ∷ 32 ∷ file)
line-ascii hash file h f =
    All-append (λ c. c < 128) hash _ h.ascii (omega arith, (omega arith, f.ascii))

-- The entries are words, and each line of them fits the buffer of the scanner.
abbrev pub AreWords : Map Text → Type 0
AreWords files =
    All (λ (e : Text × Text). IsWord e.0 × IsWord e.1 × (length e.1 + length e.0 + 2 < 65536)) files

line-fits :
    (hash file : Text)
    → length hash + length file + 2 < 65536
    → length (hash ++ 32 ∷ 32 ∷ file) < 65536
line-fits hash file h = omega (arith, length-append hash (32 ∷ 32 ∷ file))

-- The map of the files, where the last entry of a file counts.
abbrev pub insert_all : Map Text → Map Text → Map Text
insert_all [] acc = acc
insert_all ((file, hash) ∷ files) acc = insert_all files (insert file hash acc)

abbrev add_line : Map Text → Text → Map Text
add_line files line = add_fields (fields line) files

parse-lines :
    (files acc : Map Text)
    → AreWords files
    → foldl add_line acc (scan_lines (split 10 (print_checksums files))) ≡ insert_all files acc
unfolding print_checksums scan_lines
parse-lines [] acc h = unfold split fields_from blanked in refl
parse-lines ((file, hash) ∷ files) acc ((f, g, n), h) =
    let lines = scan_lines (split 10 (print_checksums files)) in
    rw
      (
        split-append 10 (hash ++ 32 ∷ 32 ∷ file) (print_checksums files) (line-Lacks hash file g f),
        lt→ltb _ _ (line-fits hash file n),
      )
      (ap (λ t. foldl add_line (add_fields (fields_from [] t) acc) lines)
          (blanked-ascii (hash ++ 32 ∷ 32 ∷ file) (line-ascii hash file g f))
        ∙ ap (λ fs. foldl add_line (add_fields fs acc) lines) (fields-line hash file g f)
        ∙ parse-lines files (insert file hash acc) h)

-- Reading a sha256sum file that was written of files and hashes gives them back, with the last hash of
-- a file that is there more than once; names and hashes are not empty, are in
-- ASCII and have no space in them, and each line is below the 65536 bytes of the scanner's buffer.
pub parse-print_checksums :
    (files : Map Text)
    → AreWords files
    → parse_checksum_file (print_checksums files) ≡ insert_all files []
unfolding parse_checksum_file
parse-print_checksums files h = parse-lines files [] h
