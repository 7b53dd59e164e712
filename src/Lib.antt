-- ===== src/Lib.antt =====
-- elfshaker, a version control system for binaries: the core of its library, modelled and proved.
--
-- A repository keeps snapshots, each a set of paths with contents. A pack index names the snapshots
-- and says, as changes from one to the next, which files each has; a pack holds the contents,
-- cut into compressed frames. The parts, and where they are modelled:
--
-- * Algo, for src/repo/algo.rs: `run_in_parallel` as the groups of items that it spawns, and
--   `partition_by_u64`. The loop that takes groups has the number of items for its fuel: each round
--   takes at least one.
-- * EntryPool, for src/entrypool.rs: values interned under handles; `entries` and `entry_map`
--   are the fields of the struct, and a handle keeps 32 bits of the length.
-- * HashSet and BTreeMap: what the code uses of Rust's collections, as lists.
-- * PackPath, for src/packpath.rs: `validate`, `new`, `from_native` and `to_native`, on Unix.
-- * LegacyPath, for src/legacy_path.rs, and the loop of `from_legacy` over the paths.
-- * PackIndex, for src/packidx.rs: Types has its data, Changes has `apply_changes` and
--   `get_changes`, Index has the tables, `push_snapshot` and `resolve_snapshot`, Layout has
--   `compute_object_offsets_and_ordering`, Identity has `compute_snapshot_checksum`, Wire has
--   version 3 of the on-disk form and Legacy has versions 1 and 2, Parts has what they share.
-- * Esi, for the documents of src/esi.rs: Parse has `Document::parse`, Create, Edit and
--   Remove are about `create`, `add` and `remove`. Sizes are printed with twenty digits at most,
--   enough for a `u64`.
-- * Esi.Commit, for `commit_documents` of src/esi.rs: a world has a file, a link or nothing at each
--   place, which is a name in a directory. Reading follows up to forty links, as Linux does, while a
--   replacement or a removal acts on the place itself. Every call of the operating system may fail.
-- * Repo.Policy, for `preflight_path_policy` of src/repo/repository.rs: which paths a platform can
--   hold beside each other.
-- * Repo.Gc, for `find_unreferenced_objects`, and Repo.Redundant, for
--   `find_redundant_loose_packs`, of src/repo/repository.rs.
-- * Repo.Lookup, for `packs`, `find_pack_with_snapshot` and `disambiguate_snapshot` of
--   src/repo/repository.rs.
-- * Repo.Diff, for `compute_entry_diff`, and Repo.Clean, for `clean_file_list`, of
--   src/repo/repository.rs. What Rust's `Path` does with components on Unix is written out.
-- * Repo.Ancestors, for `preflight_destination_ancestors`, and Repo.Collisions, for
--   `preflight_untracked_collisions`, of src/repo/repository.rs. What stands in a directory is a
--   tree, in which a link is not followed.
-- * Repo.Cleanup, for `remove_empty_dirs` and `EmptyDirectoryCleanupQueue` of src/repo/fs.rs. The
--   fuel is the number of names of the path and one more: each round leaves out a name.
-- * Repo.Symlink, for the targets of src/repo/symlink.rs, on Unix.
-- * Repo.Remote, for src/repo/remote.rs: remote indexes and endpoints; Transfer has the fetches and
--   updates of remote indexes, packs and pack indexes.
-- * Repo.Id, for `PackId` and `SnapshotId` of src/repo/pack.rs.
-- * Repo.Pack, for the frames of src/repo/pack.rs: `assign_to_frames`, `read_objects` and the
--   skippable frame of the header.
-- * Runs has the code on concrete inputs. Prelude has what the others share.
--
-- The parts meet in the pack index: PackIndex keeps its paths and checksums in two entry pools and
-- its snapshots as change sets; Layout places the objects, and places them as Repo.Pack needs to
-- read them; the paths are those of PackPath.
--
-- A failed `assert!`, `unwrap` or `expect` is `panics` of the type Run; a `Result` is `ok` or
-- `err`. Machine integers are natural numbers with their wrap-around written out, that of a release
-- build where an addition can overflow. The order in which a hash set is iterated stands for the
-- unspecified one.
--
-- Parameters stand for code outside the repository: MessagePack (what it makes of the bytes behind
-- a version), `String::from_utf16`, URL and hexadecimal parsing, the case mapping and
-- normalization of Unicode, the general category of a character, SHA-1, and the answers of a server.
-- The decompressed bytes of a frame stand for the zstd decoder.
--
-- Not modelled: locks and temporary files, compression, HTTP, the command line, and what prints
-- progress. Of the library also not modelled: creating snapshots and packs from a working tree,
-- extraction, deletions, making links, and the directories of remote indexes.
pub mod Prelude
pub mod Algo
pub mod EntryPool
pub mod HashSet
pub mod BTreeMap
pub mod PackPath
pub mod LegacyPath
pub mod PackIndex
pub mod Esi
pub mod Repo
pub mod Runs
