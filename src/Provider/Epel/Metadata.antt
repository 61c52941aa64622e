-- ===== src/Provider/Epel/Metadata.antt =====
-- The metadata of a repository: repomd.go and primary.go of internal/provider/epel, and the parts of
-- epel.go that fetch, cache and decompress. The XML decoder and the decompressors are parameters, the
-- decoded documents cut to the fields that the provider reads, and so are the server and the file
-- system.
use ocp_offline.Prelude.{
  ℕ, Text, codes, text_eq, nat_eq, Bool, true, false, not, List, [], ◌∷◌, ◌++◌, map, reverse,
  Option, none, some, Result, ok, err, ◌>>=◌, or_err, map_err, ◌==◌, ltb, length, if◌then◌else◌,
  is_empty, has_prefix, Map, lookup, insert,
}
use ocp_offline.Safety.Path.{PathError, clean_relative_path, safe_join_under}

pub record RepomdData : Type 0 where
  pub kind : Text
  pub href : Text

pub record Package : Type 0 where
  pub name : Text
  pub arch : Text
  pub ver : Text
  pub rel : Text
  pub checksum : Text
  pub size : ℕ
  pub href : Text

pub record PackageInfo : Type 0 where
  pub name : Text
  pub arch : Text
  pub version : Text
  pub release : Text
  pub checksum : Text
  pub size : ℕ
  pub location : Text

-- What a request gets: no response, or a status and the body, where it can be read and is not too
-- large.
pub data HttpReply : Type 0 where
  lost : HttpReply
  answered : ℕ → Option Text → HttpReply

-- `request` is told whether it asks with If-Modified-Since. `walk` gives the paths of the files below
-- a directory with their sizes, without those that cannot be read; `is_done` tells at which package
-- the context is done.
pub record EpelEnv : Type 0 where
  pub cwd : Option Text
  pub data_dir : Text
  pub request : Text → Bool → HttpReply
  pub zstd : Text → Option Text
  pub xz : Text → Option Text
  pub gzip : Text → Option Text
  pub parse_repomd : Text → Option (List RepomdData)
  pub parse_primary : Text → Option (List Package)
  pub can_read : Text → Bool
  pub can_write : Text → Bool
  pub hash : Text → Text
  pub walk : Text → Map Text → List (Text × ℕ)
  pub is_done : Text → Bool

pub data EpelError : Type 0 where
  not_configured invalid_output_dir invalid_cache_path fetch_failed bad_repomd no_primary :
      EpelError
  unsafe_primary decompress_failed bad_primary cancelled : EpelError
  bad_package : Text → EpelError

-- FindPrimaryLocation
unfoldable pub find_primary : List RepomdData → Option Text
find_primary [] = none
find_primary (d ∷ ds) =
    let rest = find_primary ds in
    if d.kind == codes "primary" then (if is_empty d.href then none else some d.href) else rest

-- ExtractPackages
unfoldable pub extract_packages : List Package → List PackageInfo
extract_packages = map (λ (p : Package). record {
  name = p.name;
  arch = p.arch;
  version = p.ver;
  release = p.rel;
  checksum = p.checksum;
  size = p.size;
  location = p.href;
})

abbrev pub trim_left : Text → Text
trim_left [] = []
trim_left (c ∷ s) = let rest = trim_left s in if c == 47 then rest else c ∷ s

abbrev pub trim_right : Text → Text
trim_right s = reverse (trim_left (reverse s))

-- strings.TrimRight(base, "/") + "/" + strings.TrimLeft(path, "/")
unfoldable pub url_of : Text → Text → Text
url_of base path = trim_right base ++ 47 ∷ trim_left path

abbrev pub is_found : Option Text → Bool
is_found none = false
is_found (some t) = true

-- os.ReadFile
unfoldable pub read_file : EpelEnv → Text → Map Text → Option Text
read_file env path disk = if env.can_read path then lookup path disk else none

-- os.WriteFile, whose error is logged
unfoldable pub write_file : EpelEnv → Text → Text → Map Text → Map Text
write_file env path content disk = if env.can_write path then insert path content disk else disk

abbrev pub Fetched : Type 0
Fetched = Result EpelError (Text × Bool)

-- fetchURLConditional, from the reply on: the data, and whether it is fresh.
unfoldable pub take_conditional : EpelEnv → Text → Map Text → HttpReply → Fetched × Map Text
take_conditional env cache disk lost = (err fetch_failed, disk)
take_conditional env cache disk (answered status body) =
    let cached : Fetched = elim (read_file env cache disk) [
      | none ↦ err fetch_failed
      | some d ↦ ok (d, false)
    ] in
    if status == 304
    then (cached, disk)
    else if not (status == 200)
    then (err fetch_failed, disk)
    else elim body [
      | none ↦ (err fetch_failed, disk)
      | some d ↦ (ok (d, true), write_file env cache d disk)
    ]

-- fetchURLConditional
unfoldable pub fetch_conditional : EpelEnv → Text → Text → Map Text → Fetched × Map Text
fetch_conditional env url cache disk =
    take_conditional env cache disk (env.request url (is_found (lookup cache disk)))

abbrev pub fetched : HttpReply → Option Text
fetched lost = none
fetched (answered status body) = if status == 200 then body else none

-- fetchURL
unfoldable pub fetch_url : EpelEnv → Text → Option Text
fetch_url env url = fetched (env.request url false)

-- decompress, by the magic number
unfoldable pub decompress : EpelEnv → Text → Option Text
decompress env content =
    if ltb (length content) 6
    then some content
    else if has_prefix content (40 ∷ 181 ∷ 47 ∷ 253 ∷ [])
    then env.zstd content
    else if has_prefix content (253 ∷ 55 ∷ 122 ∷ 88 ∷ 90 ∷ 0 ∷ [])
    then env.xz content
    else if has_prefix content (31 ∷ 139 ∷ [])
    then env.gzip content
    else some content

-- The primary location that a repomd.xml names.
unfoldable pub primary_location : EpelEnv → Text → Result EpelError Text
primary_location env content = or_err (env.parse_repomd content) bad_repomd >>= λ repomd.
    or_err (find_primary repomd) no_primary >>= λ href.
    map_err (λ e. unsafe_primary) (clean_relative_path href)

-- The packages of the primary metadata.
unfoldable pub read_packages : EpelEnv → Text → Result EpelError (List PackageInfo)
read_packages env content = or_err (decompress env content) decompress_failed >>= λ xml.
    or_err (env.parse_primary xml) bad_primary >>= λ primary. ok (extract_packages primary)

-- Primary metadata that is fetched, and saved by a plan.
abbrev pub save_primary :
    EpelEnv → Bool → Text → Map Text → Option Text → Result EpelError Text × Map Text
save_primary env save cache disk none = (err fetch_failed, disk)
save_primary env save cache disk (some d) =
    (ok d, if save then write_file env cache d disk else disk)

-- The primary metadata: the cached copy of a repomd.xml that did not change, or a fresh one.
unfoldable pub get_primary :
    EpelEnv → Bool → Text → Text → Bool → Map Text → Result EpelError Text × Map Text
get_primary env save url cache modified disk =
    let cached = if modified then none else read_file env cache disk in
    elim cached [
      | some d ↦ (ok d, disk)
      | none ↦ save_primary env save cache disk (fetch_url env url)
    ]

abbrev pub Loaded : Type 0
Loaded = Result EpelError (List PackageInfo × Bool)

abbrev pub take_primary : EpelEnv → Bool → Result EpelError Text × Map Text → Loaded × Map Text
take_primary env modified (err e, disk) = (err e, disk)
take_primary env modified (ok d, disk) = (read_packages env d >>= (λ ps. ok (ps, modified)), disk)

abbrev pub at_cache :
    EpelEnv → Bool → Text → Text → Bool → Map Text → Result PathError Text → Loaded × Map Text
at_cache env save base loc modified disk (err e) = (err invalid_cache_path, disk)
at_cache env save base loc modified disk (ok cache) =
    take_primary env modified (get_primary env save (url_of base loc) cache modified disk)

abbrev pub at_primary :
    EpelEnv → Bool → Text → Text → Bool → Map Text → Result EpelError Text → Loaded × Map Text
at_primary env save base out modified disk (err e) = (err e, disk)
at_primary env save base out modified disk (ok loc) =
    at_cache env save base loc modified disk (safe_join_under env.cwd out loc)

abbrev pub take_repomd : EpelEnv → Bool → Text → Text → Fetched × Map Text → Loaded × Map Text
take_repomd env save base out (err e, disk) = (err e, disk)
take_repomd env save base out (ok (d, modified), disk) =
    at_primary env save base out modified disk (primary_location env d)

abbrev pub at_repomd :
    EpelEnv → Bool → Text → Text → Map Text → Result PathError Text → Loaded × Map Text
at_repomd env save base out disk (err e) = (err invalid_cache_path, disk)
at_repomd env save base out disk (ok cache) =
    take_repomd env save base out
      (fetch_conditional env (trim_right base ++ codes "/repodata/repomd.xml") cache disk)

-- The packages of a repository, and whether its repomd.xml changed; a plan saves the primary metadata,
-- a validation does not.
unfoldable pub load_packages : EpelEnv → Bool → Text → Text → Map Text → Loaded × Map Text
load_packages env save base out disk =
    at_repomd env save base out disk (safe_join_under env.cwd out (codes "repodata/repomd.xml"))
