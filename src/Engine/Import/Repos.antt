-- ===== src/Engine/Import/Repos.antt =====
-- internal/engine/import.go: the directories for which createrepo_c is run after an import.
pub mod Confined
use ocp_offline.Prelude.{
  Text, codes, text_eq, Bool, false, ◌||◌, List, [], ◌∷◌, ◌++◌, foldl, Option, none, some, Result,
  ok, err, ◌==◌, if◌then◌else◌, lookup,
}
use ocp_offline.Safety.Path.{PathError, clean_relative_path, safe_join_under, join}
use ocp_offline.Safety.Path.Split.{split}
use ocp_offline.Engine.Export.{ManifestProvider, ManifestFile, TransferManifest}

abbrev pub is_rpm : Option ManifestProvider → Bool
is_rpm none = false
is_rpm (some p) = p.kind == codes "rpm_repo"

abbrev pub first_part : List Text → Text
first_part [] = []
first_part (p ∷ ps) = p

abbrev pub dir_under : Result PathError Text → Option Text
dir_under (err e) = none
dir_under (ok dir) = some dir

abbrev pub dir_of : Option Text → Text → Text → Result PathError Text → Option Text
dir_of cwd data_dir provider (err e) = none
dir_of cwd data_dir provider (ok path) =
    dir_under (safe_join_under cwd data_dir (join provider (first_part (split 47 path))))

abbrev pub is_seen : Text → List Text → Bool
is_seen dir [] = false
is_seen dir (d ∷ dirs) = let rest = is_seen dir dirs in (d == dir) || rest

abbrev pub add_dir : Option Text → List Text → List Text
add_dir none dirs = dirs
add_dir (some dir) dirs = if is_seen dir dirs then dirs else dirs ++ dir ∷ []

-- The loop's body.
unfoldable pub add_repo_dir :
    Option Text → Text → TransferManifest → List Text → ManifestFile → List Text
add_repo_dir cwd data_dir manifest dirs f =
    if is_rpm (lookup f.provider manifest.providers)
    then add_dir (dir_of cwd data_dir f.provider (clean_relative_path f.path)) dirs
    else dirs

-- collectRPMRepoDirs
unfoldable pub collect_repo_dirs : Option Text → Text → TransferManifest → List Text
collect_repo_dirs cwd data_dir manifest =
    foldl (λ dirs f. add_repo_dir cwd data_dir manifest dirs f) [] manifest.file_inventory
