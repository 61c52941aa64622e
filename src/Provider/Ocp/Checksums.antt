-- ===== src/Provider/Ocp/Checksums.antt =====
-- internal/provider/ocp/common.go: sha256sum files and their filter. A text is its bytes, in UTF-8; the
-- filter is on ASCII text. A line that is empty, the one behind the last line break too, is skipped.
pub mod RoundTrip
use ocp_offline.Prelude.{
  ℕ, zero, suc, ◌+◌, ◌-◌, Text, text_eq, nat_eq, Bool, true, false, not, ◌&&◌, ◌||◌, List, [], ◌∷◌,
  ◌++◌, map, foldl, ◌==◌, ltb, leb, length, if◌then◌else◌, is_empty, has_prefix, Map, insert,
}
use ocp_offline.Safety.Path.Split.{split}

-- A tab, the four line ends, and the space.
abbrev pub is_space : ℕ → Bool
is_space c = (leb 9 c && leb c 13) || (c == 32)

abbrev pub add_word : Text → List Text → List Text
add_word word words = if is_empty word then words else word ∷ words

-- The words of a text with ASCII spaces, from within a word on.
unfoldable pub fields_from : Text → Text → List Text
fields_from word [] = add_word word []
fields_from word (c ∷ s) =
    let apart = add_word word (fields_from [] s) in
    let on = fields_from (word ++ c ∷ []) s in if is_space c then apart else on

-- The two bytes of U+0085 or U+00A0.
abbrev is_wide_two : ℕ → ℕ → Bool
is_wide_two a b = a == 194 && (b == 133 || b == 160)

-- The three bytes of U+1680, U+2000 to U+200A, U+2028, U+2029, U+202F, U+205F or U+3000.
abbrev is_wide_three : ℕ → ℕ → ℕ → Bool
is_wide_three a b c =
    (a == 225 && (b == 154 && c == 128))
    || ((a == 226
          && (b == 128 && ((leb 128 c && leb c 138) || (c == 168 || (c == 169 || c == 175)))))
        || ((a == 226 && (b == 129 && c == 159)) || (a == 227 && (b == 128 && c == 128))))

-- How many bytes a space takes at the front of a text, if it is one that is not ASCII.
unfoldable pub wide_space : Text → ℕ
wide_space (a ∷ b ∷ c ∷ s) = if is_wide_two a b then 2 else if is_wide_three a b c then 3 else 0
wide_space (a ∷ b ∷ []) = if is_wide_two a b then 2 else 0
wide_space s = 0

-- A text with a blank for each byte of such a space; the number is of bytes left of one.
unfoldable pub blanked : ℕ → Text → Text
blanked n [] = []
blanked zero (c ∷ s) =
    let width = wide_space (c ∷ s) in (if width == 0 then c else 32) ∷ blanked (width - 1) s
blanked (suc n) (c ∷ s) = 32 ∷ blanked n s

-- strings.Fields
abbrev pub fields : Text → List Text
fields s = fields_from [] (blanked 0 s)

-- The lines that a bufio.Scanner gives of these: it stops at one that does not fit its buffer.
unfoldable pub scan_lines : List Text → List Text
scan_lines [] = []
scan_lines (line ∷ lines) =
    let rest = scan_lines lines in if ltb (length line) 65536 then line ∷ rest else []

-- The loop's body, on the fields of a line.
abbrev pub add_fields : List Text → Map Text → Map Text
add_fields (hash ∷ file ∷ more) files = insert file hash files
add_fields parts files = files

-- parseChecksumFile
unfoldable pub parse_checksum_file : Text → Map Text
parse_checksum_file content =
    foldl (λ files line. add_fields (fields line) files) [] (scan_lines (split 10 content))

abbrev pub lower : Text → Text
lower = map (λ c. if leb 65 c && leb c 90 then c + 32 else c)

-- strings.Contains
unfoldable pub contains : Text → Text → Bool
contains [] sub = is_empty sub
contains (c ∷ s) sub = let rest = contains s sub in has_prefix (c ∷ s) sub || rest

abbrev pub is_ignored : Text → List Text → Bool
is_ignored file [] = false
is_ignored file (pattern' ∷ patterns) =
    let rest = is_ignored file patterns in contains (lower file) (lower pattern') || rest

-- filterFiles
unfoldable pub filter_files : Map Text → List Text → Map Text
filter_files [] patterns = []
filter_files ((file, hash) ∷ files) patterns =
    let rest = filter_files files patterns in
    if is_ignored file patterns then rest else (file, hash) ∷ rest
