-- ===== src/Lib.antt =====
-- A model of airgap, the tool that carries content of repositories and registries over to machines
-- without a network: it downloads the files of its providers into a data directory, records them
-- in a SQLite store, exports them as split archives to a transfer medium, and imports such a
-- medium on the other side.
--
-- Parts, and the files that model them:
--
-- internal/safety/path.go, the confinement of paths that come from metadata, manifests and
-- archives: Safety/Path.antt, with clean_relative_path, safe_join_under and ensure_under_root for
-- the functions of those names. It stands on the functions of path/filepath that the code calls,
-- as they are on Unix, written out over lists of elements (Safety/Path/Split.antt,
-- Safety/Path/Resolve.antt). The working directory is a parameter, an optional text; that it is
-- rooted is a named hypothesis, RootedCwd. The confinement is lexical: symbolic links on disk are
-- not modelled. Proofs are in Safety/Path/Confined.antt, Containment.antt, Guarantees.antt,
-- Relative.antt and Complete.antt.
--
-- internal/engine/size.go: Engine/Size.antt, with parse_size for ParseSize, on ASCII text. The
-- product wraps around in 64 bits as in the code. Proofs: Engine/Size/Exact.antt.
--
-- internal/store/models.go and sqlite.go: Store/Models.antt for the records, Store/Table.antt for
-- tables with generated keys, and one file for each group of statements: SyncRuns, Files, Failed,
-- Jobs, Transfers and Configs, each but Jobs with its Laws; those of Files go on in Unique and
-- Delete. A statement is a function of the table and of what the driver reports, a Fault: success,
-- a statement that was refused, or one that was run and whose result cannot be had. Rows are
-- listed in the order of the query, and rows that compare equal in the order of the table. Foreign
-- keys are not enforced, as the program never turns them on. The database's clock is a parameter.
-- The opening of the database, the migrations and the scanning of rows are not modelled.
--
-- internal/engine/export.go and manifest.go: Engine/Export.antt, on the records of
-- Engine/Export/Data.antt. export runs collect, pack (with open_archive, close_archive, roll and
-- add_file, for the closures and the loop of Export), manifest_of and the record of the transfer.
-- The file system, the tar and zstd writers, the hashes and the context are a parameter, Media. The
-- side files, the README text, the version, the host name and the log are not modelled. The size of
-- the open archive is an int64, kept as its bit pattern: its sum with a file's size wraps around.
-- Proofs: Engine/Export/Contents.antt, Splitting.antt, Numbered.antt and Total.antt.
--
-- internal/engine/import.go: Engine/Import.antt, on the state of Engine/Import/Base.antt: the
-- store's tables, the disk as a map from absolute paths to contents, the transfer and the report.
-- The loop that validates is in Engine/Import/Validation.antt, the one that extracts in
-- Engine/Import/Extraction.antt, and extractArchive in Engine/Import/Archive.antt. What the medium
-- holds, its hashes, its tar entries and the points where the context is done are a parameter,
-- Source; the local file system is LocalFs; the store's faults are Faults. What createrepo_c leaves
-- of the disk, when it is run after the extraction for the directories of Engine/Import/Repos.antt,
-- is a parameter of Env; that it changes only what is below its directory is a named hypothesis
-- where it is needed. The log and the durations are not modelled. Proofs: Engine/Import/Confined.antt,
-- Repos/Confined.antt, Guards.antt, Verified.antt, Reach.antt and Skipped.antt.
--
-- internal/config/config.go: Config.antt, the defaults, the search for the file and the `enabled` entry
-- of a provider. YAML is not modelled: a value is a text, a boolean or another.
--
-- internal/provider/provider.go: Provider.antt, the plans, the reports and the registry. A provider is
-- what its Plan and its Validate return; what a Plan leaves on the disk is a parameter of the sync.
--
-- internal/provider/epel: Provider/Epel.antt for the plan, with plan_epel for Plan, and
-- Provider/Epel/Validation.antt for Validate, on the metadata and the cache of
-- Provider/Epel/Metadata.antt. The server, the XML decoder, the decompressors, the hash and the files
-- below a directory are a parameter, EpelEnv. A file that cannot be written is left as it was. Proofs:
-- Provider/Epel/Agreement.antt, Cleanup.antt and Exported.antt, where a plan meets the records of a
-- sync and the paths of an export.
--
-- internal/safety/http.go: Safety/Http.antt, with read_all_with_limit for ReadAllWithLimit, on the
-- bytes that a reader delivers. The parsers of URLs and of IP addresses are parameters. Proof:
-- Safety/Http/Limit.antt.
--
-- internal/ocp/clients.go: Ocp/Semver.antt for versions and their order, Ocp/Releases.antt for the
-- releases of a channel and their cache, Ocp/Tracks.antt for the channels in the graph-data archive
-- and their cache, and Ocp/Manifest.antt for sha256sum.txt and its artifacts. sort.Slice is a
-- parameter, a Sorter (Prelude/Sorters.antt): any function that permutes, and that sorts by a strict
-- weak order; insertion sort is one. The server, the decoders and the clock are parameters too. A
-- service has one caller at a time. Proofs: Ocp/Semver/Order.antt and Numbers.antt,
-- Ocp/Releases/Laws.antt, Cache.antt and Again.antt, Ocp/Tracks/Groups.antt, Laws.antt and Entries.antt, and
-- Ocp/Manifest/Laws.antt and Platforms.antt.
--
-- internal/provider/ocp: Provider/Ocp.antt, with plan_ocp and validate_ocp for the Plan and the
-- Validate of binaries.go and build_sync_plan for common.go; Provider/Ocp/Checksums.antt for
-- sha256sum files, with the lines that a bufio.Scanner gives and the spaces of strings.Fields; Provider/Ocp/Configured.antt for Configure and the stub Sync;
-- Provider/Ocp/Rhcos.antt for rhcos.go, which has the same code; and Provider/Ocp/Clients.antt, with
-- plan_clients and validate_clients, for clients_provider.go. The server, the hash and the file
-- system are a parameter, OcpEnv. Proofs: Provider/Ocp/Checksums/RoundTrip.antt, Judged.antt and
-- Agreement.antt for plans against validations, Placed.antt and Synced.antt, with
-- Engine/Sync/Placed.antt, for plans against the destinations that a sync accepts, and for the
-- clients Clients/Versions.antt, Hashes.antt, Agreement.antt and Synced.antt.
--
-- internal/download/client.go: Download/Client.antt. download runs download_from, the loop over the
-- attempts, on what is at the destination. The server, the file system and the context are a
-- parameter, an Attempt for each round; the SHA-256 is another. Proofs: Download/Client/Laws.antt,
-- Sized.antt and Recovery.antt. internal/download/pool.go: Download/Pool.antt, a step relation (PoolStep, PoolRun)
-- with one step for each thing that the sender or a worker does next, in any order; collected is what
-- Execute returns. Proofs: Download/Pool/Order.antt and Progress.antt.
--
-- internal/engine/progress.go: Engine/Progress.antt, one function for each method of the tracker; a
-- run of the workers is the list of their calls in the order of the lock. The percentage, the speed
-- and the time left are floats, and not modelled. Proofs: Engine/Progress/Laws.antt.
--
-- internal/engine/sync.go: Engine/Sync.antt, with sync_provider for SyncProvider, on the state of
-- Engine/Sync/Base.antt: the tables of runs, files and failed files, the disk and the tracker. Its
-- loops over the actions of the plan are in Engine/Sync/Actions.antt. The registry, the faults of the
-- store, what the Plan of a provider leaves on the disk (it caches metadata there, in a dry run too),
-- and what the pool of downloads returns and does are a parameter, SyncEnv. Proofs:
-- Engine/Sync/Counts.antt (with Counts/Loop.antt), Runs.antt (with Runs/Kept.antt), Settled.antt,
-- Placed.antt and Reach.antt. Engine/Sync/All.antt is SyncAll and
-- ValidateAll, Engine/Sync/Status.antt is Status, Engine/Sync/Reconfigure.antt is
-- ReconfigureProviders, and Engine/Sync/Scan.antt is ScanLocal; proofs are in All/Coverage.antt,
-- Reconfigure/Enabled.antt and Scan/Elsewhere.antt below them. The lock that keeps them apart is not
-- modelled.
--
-- An import, an export and a sync meet in the manifest and in the store: they use the operations of
-- Store and the paths of Safety as they stand.
--
-- Sizes, counts, times and ids are natural numbers (a negative split size, which Export refuses as
-- it refuses 0, is out of the model); texts are lists of byte codes. Loops are recursions on the
-- lists they range over; the loop of a download is one on the attempts that are left. emit_digits
-- alone has fuel: a number has at most as many digits as it is large, so the number itself is
-- enough.
--
-- The providers of container images and registries, the mirror selection, the push
-- to registries, the server and the command line are not modelled.
pub mod Prelude
pub mod Safety
pub mod Config
pub mod Provider
pub mod Download
pub mod Store
pub mod Ocp
pub mod Engine
