-- ===== src/Engine/Sync/Scan/Elsewhere.antt =====
-- Where an export looks for a file that a scan recorded, and where the file is.
use mathlib.Core.List.{append_cancel_left}
use ocp_offline.Prelude.{
  ℕ, suc, ok, Map, ◌≡◌, ◌≢◌, refl, sym, ap, ◌∙◌, subst, Text, text_eq, true, List, [], ◌∷◌, ◌++◌,
  All, All-append, some, ◌==◌, length, length-append, text_beq_iff, arith, nat_eq, Bool-cases, inl,
  inr,
}
use ocp_offline.Safety.Path.{is_abs, rel, rel_elements}
use ocp_offline.Safety.Path.Split.{join_with}
use ocp_offline.Safety.Path.Resolve.{FilePath, parse, render}
use ocp_offline.Safety.Path.Confined.{IsName, parse-render_rooted}
use ocp_offline.Safety.Path.Containment.{rooted_path, parse_abs, rel_parsed, render_injective}
use ocp_offline.Safety.Path.Complete.{clean-joined}
use ocp_offline.Engine.Export.Paths.{join_three-abs}
use ocp_offline.Engine.Export.{entry_of, join_three}
use ocp_offline.Store.Models.{FileRecord}
use ocp_offline.Store.Table.{Table, no_fault}
use ocp_offline.Store.Files.{at_path, upsert_file_record, get_file_record}
use ocp_offline.Store.Files.Laws.{IsFileTable, get-upsert}
use ocp_offline.Engine.Sync.Scan.{
  ScanEnv, ScanState, a_file, not_done, scan_record, scan_file, scan_items,
}

rel_elements-append : (ds ns : List Text) → rel_elements ds (ds ++ ns) ≡ some ns
unfolding rel_elements
rel_elements-append [] ns = refl
rel_elements-append (d ∷ ds) ns = rw ((text_beq_iff d d).1 refl) (rel_elements-append ds ns)

longer : {A : Type 0} (xs ys : List A) (x : A) → xs ++ x ∷ ys ≢ xs
longer xs ys x h = absurd (omega (arith, ap length h, length-append xs (x ∷ ys)))

module _ (root : Text) (a : is_abs root ≡ true) (r : Text) (rs : List Text)
    (names : All IsName (r ∷ rs)) where
  -- A file below the root has as its relative path the names below it.
  rel-below :
      (bs : List Text)
      → All IsName bs
      → parse root ≡ rooted_path bs
      → rel root (render (rooted_path (bs ++ r ∷ rs))) ≡ some (join_with b'/' (r ∷ rs))
  rel-below bs nb pr =
      let whole : All IsName (bs ++ r ∷ rs) = All-append IsName bs (r ∷ rs) nb names in
      let parts =
        rel_parsed root (render (rooted_path (bs ++ r ∷ rs))) (rooted_path bs)
          (rooted_path (bs ++ r ∷ rs)) pr (parse-render_rooted _ whole) in
      elim (Bool-cases (render (rooted_path (bs ++ r ∷ rs)) == render (rooted_path bs))) [
        | inl e ↦ absurd (longer bs rs r (render_injective _ _ nb whole ((text_beq_iff _ _).0 e)))
        | inr e ↦ parts ∙ rw (e, rel_elements-append bs (r ∷ rs)) refl
      ]

module _ (env : ScanEnv) (name r : Text) (rs : List Text) (a : is_abs env.data_dir ≡ true)
    (n : IsName name) (names : All IsName (r ∷ rs)) where
  -- The file below the data directory with these names, and its path relative to the directory.
  abbrev pub file_below : Text
  file_below = render (rooted_path ((parse env.data_dir).elements ++ r ∷ rs))

  abbrev pub recorded_path : Text
  recorded_path = join_with b'/' (r ∷ rs)

  root_names :
      All IsName (parse env.data_dir).elements
      × (parse env.data_dir ≡ rooted_path (parse env.data_dir).elements)
  root_names =
      let (bs, nb, pr) = parse_abs env.data_dir a in
      let de : (parse env.data_dir).elements ≡ bs = ap (λ (f : FilePath). f.elements) pr in
      (subst (λ x. All IsName x) (sym de) nb, pr ∙ ap (λ x. rooted_path x) (sym de))

  rel-file_below : rel env.data_dir file_below ≡ some recorded_path
  rel-file_below = rel-below env.data_dir a r rs names _ root_names.0 root_names.1

  join_three-elsewhere : join_three env.data_dir name recorded_path ≢ file_below
  unfolding join_with
  join_three-elsewhere same =
      let ds : List Text = (parse env.data_dir).elements in
      let looked : join_three env.data_dir name recorded_path
          ≡ render (rooted_path (ds ++ name ∷ r ∷ rs)) =
        join_three-abs env.data_dir name recorded_path a
        ∙ clean-joined env.data_dir name (r ∷ rs) a (n, names) in
      let both : ds ++ name ∷ r ∷ rs ≡ ds ++ r ∷ rs =
        render_injective _ _ (All-append IsName ds _ root_names.0 names)
          (All-append IsName ds _ root_names.0 (n, names)) (sym looked ∙ same) in
      let tail : name ∷ r ∷ rs ≡ r ∷ rs = append_cancel_left ds _ _ both in
      absurd (omega (arith, ap length tail))

  module _ (existing : Map FileRecord) (size modified : ℕ) (sum : Text) (st : ScanState) where
    -- What the walk leaves behind the file.
    abbrev pub scanned_files : Table FileRecord
    scanned_files = (scan_items env name existing (a_file file_below size modified ∷ []) st).1.files

    scan_one :
        (file path : Text)
        → env.context file ≡ not_done
        → rel env.data_dir file ≡ some path
        → env.checksum file ≡ some sum
        → (scan_items env name existing (a_file file size modified ∷ []) st).1.files
          ≡ (upsert_file_record
              (env.on_upsert path)
              (scan_record env name path size modified sum)
              st.files).1
    unfolding scan_items scan_file
    scan_one file path c p s = cc (c, p, s)

    scanned-upsert :
        env.context file_below ≡ not_done
        → env.checksum file_below ≡ some sum
        → scanned_files
          ≡ (upsert_file_record
              (env.on_upsert recorded_path)
              (scan_record env name recorded_path size modified sum)
              st.files).1
    scanned-upsert c s = scan_one file_below recorded_path c rel-file_below s

    -- A scan that comes to a readable file below the absolute data directory, in any state, leaves a
    -- record of the provider with the size and the checksum of the file, and an export never looks
    -- for the file of this record where the scan found it: the scan records the path relative to the
    -- data directory, and the export takes it as relative to the directory of the provider in it. The
    -- store accepts the record, and the provider's name and the parts of the path are names.
    pub scanned_elsewhere :
        IsFileTable st.files
        → env.context file_below ≡ not_done
        → env.checksum file_below ≡ some sum
        → env.on_upsert recorded_path ≡ no_fault
        → (rec : FileRecord) × (get_file_record no_fault name recorded_path scanned_files ≡ ok rec)
          × (rec.size ≡ size)
          × (rec.sha256 ≡ sum)
          × ((entry_of env.data_dir name rec).abs_path ≢ file_below)
    unfolding entry_of
    scanned_elsewhere t c s u =
        let rec = scan_record env name recorded_path size modified sum in
        let there : at_path name recorded_path rec ≡ true =
          rw ((text_beq_iff name name).1 refl, (text_beq_iff recorded_path recorded_path).1 refl)
            refl in
        (
          record rec { id = suc st.files.seq },
          rw (scanned-upsert c s, u, get-upsert rec st.files name recorded_path t refl, there) refl,
          refl,
          refl,
          join_three-elsewhere,
        )
