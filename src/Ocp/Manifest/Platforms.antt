-- ===== src/Ocp/Manifest/Platforms.antt =====
-- What the platform of an artifact says.
use ocp_offline.Prelude.{
  Text, ◌++◌, ◌∷◌, codes, text_eq, text_beq, Bool, true, false, ◌||◌, not, Option, none, some, ◌≡◌,
  refl, ◌==◌, if◌then◌else◌,
}
use ocp_offline.Provider.Ocp.Checksums.{contains, lower}
use ocp_offline.Ocp.Semver.{cut}
use ocp_offline.Ocp.Manifest.{classify_artifact, platform}

abbrev pub os_arch : Text → Option (Text × Text) → Text × Text
os_arch p none = (p, codes "amd64")
os_arch p (some parts) = parts

-- A platform as an operating system and an architecture: "linux-arm64", or "linux" for amd64.
abbrev pub read_platform : Text → Text × Text
read_platform p = os_arch p (cut 45 p)

abbrev pick_os : Bool → Bool → Bool → Text
pick_os mac darwin windows =
    if mac || darwin then codes "mac" else if windows then codes "windows" else codes "linux"

abbrev pick_arch : Bool → Bool → Bool → Text
pick_arch arm64 ppc64le s390x =
    if arm64
    then codes "arm64"
    else if ppc64le
    then codes "ppc64le"
    else if s390x
    then codes "s390x"
    else codes "amd64"

abbrev show : Text → Text → Text
show os arch = if not (arch == codes "amd64") then os ++ 45 ∷ arch else os

show-arch :
    (mac darwin windows arm64 ppc64le s390x : Bool)
    → read_platform (show (pick_os mac darwin windows) (pick_arch arm64 ppc64le s390x))
      ≡ (pick_os mac darwin windows, pick_arch arm64 ppc64le s390x)
unfolding cut text_beq
show-arch true darwin windows true p s = refl
show-arch true darwin windows false true s = refl
show-arch true darwin windows false false true = refl
show-arch true darwin windows false false false = refl
show-arch false true windows true p s = refl
show-arch false true windows false true s = refl
show-arch false true windows false false true = refl
show-arch false true windows false false false = refl
show-arch false false true true p s = refl
show-arch false false true false true s = refl
show-arch false false true false false true = refl
show-arch false false true false false false = refl
show-arch false false false true p s = refl
show-arch false false false false true s = refl
show-arch false false false false false true = refl
show-arch false false false false false false = refl

-- The platform that the filter compares is read back as the operating system and the architecture of
-- the artifact, so two classified artifacts have one platform only if they agree in both.
pub platform-classify :
    (file base checksum : Text)
    → read_platform (platform (classify_artifact file base checksum))
      ≡ ((classify_artifact file base checksum).os, (classify_artifact file base checksum).arch)
unfolding classify_artifact
platform-classify file base checksum =
    let holds = contains (lower file) in
    show-arch (holds (codes "-mac")) (holds (codes "-darwin")) (holds (codes "-windows"))
      (holds (codes "-arm64")) (holds (codes "-ppc64le")) (holds (codes "-s390x"))
