-- ===== src/Ocp/Manifest/Laws.antt =====
-- What a manifest lists.
use mathlib.Core.List.{Perm}
use ocp_offline.Prelude.{
  Text, List, [], ◌∷◌, foldl, ok, >>=-eq-ok, ok-injective, ◌≡◌, ◌≢◌, refl, subst, Map, Sorter,
  StrictWeakOrder, IsSorted, text_lt-StrictWeakOrder, IsMap, IsMap-nil, insert-IsMap,
}
use ocp_offline.Safety.Path.Split.{split}
use ocp_offline.Provider.Epel.Metadata.{HttpReply}
use ocp_offline.Provider.Ocp.Checksums.{fields}
use ocp_offline.Ocp.Manifest.{
  ManifestResult, add_line, without_star, parse_manifest, classify_all, base_of, by_name,
  listed_manifest, fetch_manifest, reply_body, manifest_url,
}

add_line-IsMap :
    (fields : List Text) (files : Map Text) → IsMap files → IsMap (add_line fields files)
add_line-IsMap [] files h = h
add_line-IsMap (hash ∷ []) files h = h
add_line-IsMap (hash ∷ file ∷ more) files h = insert-IsMap (without_star file) hash files h

parse_lines-IsMap :
    (lines : List Text) (files : Map Text)
    → IsMap files
    → IsMap (foldl (λ files line. add_line (fields line) files) files lines)
parse_lines-IsMap [] files h = h
parse_lines-IsMap (line ∷ lines) files h =
    parse_lines-IsMap lines _ (add_line-IsMap (fields line) files h)

by_name-StrictWeakOrder : StrictWeakOrder by_name
unfolding by_name
by_name-StrictWeakOrder = record {
  asym = λ x y. text_lt-StrictWeakOrder.asym x.name y.name;
  weak = λ x y z. text_lt-StrictWeakOrder.weak x.name y.name z.name;
}

-- A manifest of a version: at least one file, no file twice, one artifact for each file and no other,
-- sorted by name.
pub record IsManifest (version : Text) (m : ManifestResult) : Type 0 where
  pub named : m.version ≡ version
  pub some_file : m.checksums ≢ []
  pub distinct : IsMap m.checksums
  pub listed : Perm m.artifacts (classify_all (base_of version) m.checksums)
  pub sorted : IsSorted by_name m.artifacts

listed_manifest-IsManifest :
    (sorter : Sorter) (version : Text) (files : Map Text) (m : ManifestResult)
    → IsMap files
    → listed_manifest sorter version files ≡ ok m
    → IsManifest version m
listed_manifest-IsManifest sorter version [] m h e = absurd (cc e)
listed_manifest-IsManifest sorter version (entry ∷ entries) m h e =
    subst (IsManifest version) (ok-injective e) (record {
      named = refl;
      some_file = λ n. absurd (cc n);
      distinct = h;
      listed = sorter.permutes by_name (classify_all (base_of version) (entry ∷ entries));
      sorted =
          sorter.sorts by_name by_name-StrictWeakOrder
            (classify_all (base_of version) (entry ∷ entries));
    })

-- A manifest that FetchManifest returns has a file, no file twice, one artifact for every file with its
-- hash and no other, and its artifacts are sorted by name, whatever the server sent.
pub fetch_manifest-IsManifest :
    (sorter : Sorter) (request : Text → HttpReply) (version : Text) (m : ManifestResult)
    → fetch_manifest sorter request version ≡ ok m
    → IsManifest version m
unfolding fetch_manifest parse_manifest
fetch_manifest-IsManifest sorter request version m h =
    let (body, e, k) = >>=-eq-ok (reply_body (request (manifest_url version))) _ h in
    listed_manifest-IsManifest sorter version _ m
      (parse_lines-IsMap (split 10 body) [] (IsMap-nil Text)) k
