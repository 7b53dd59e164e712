-- ===== src/PackIndex/Index.antt =====
-- `PackIndex` of packidx.rs: its tables, and the snapshots pushed to it and resolved from it.
pub mod Tables
pub mod Entries
pub mod History
pub mod Push
pub mod Counts
use elfshaker.Prelude.{
  ℕ, ◌+◌, ◌-◌, ◌%◌, Bool, Option, none, some, List, [], ◌∷◌, ◌++◌, length, Eq, ◌==◌, contains,
  if◌then◌else◌, Run, returns, panics, ◌>>=◌, unwrap, Result, ok, err, list_eq, nat_eq,
}
use elfshaker.Algo.{u64_mod}
use elfshaker.EntryPool
use elfshaker.EntryPool.{Handle, EntryPool}
use elfshaker.HashSet
use elfshaker.BTreeMap
use elfshaker.PackIndex.Types.{
  ObjectChecksum, PathBytes, FileHandle, ObjectMetadata, FileEntry, ChangeSet, handle_eq,
}
use elfshaker.PackIndex.Changes.{apply_changes, get_changes}

-- a snapshot tag, by its code points
abbrev pub Tag : Type 0
Tag = List ℕ

-- the errors of `PackError` that these operations return
pub data PackError : Type 0 where
  path_not_found : Handle → PackError
  object_not_found : PackError
  snapshot_already_exists : Tag → PackError

pub record PackIndex : Type 0 where
  pub snapshot_tags : List Tag
  pub snapshot_deltas : List (ChangeSet FileHandle)
  pub path_pool : EntryPool PathBytes
  pub object_pool : EntryPool ObjectChecksum
  pub object_metadata : List (Handle × ObjectMetadata)
  pub current : List FileHandle

abbrev pub new : PackIndex
new = record {
  snapshot_tags = [];
  snapshot_deltas = [];
  path_pool = EntryPool.new;
  object_pool = EntryPool.new;
  object_metadata = [];
  current = [];
}

-- `unwrap` at the metadata is a panic
unfoldable pub decode_handle :
    FileHandle
    → Option PathBytes
    → Option ObjectChecksum
    → Option ObjectMetadata
    → Run (Result PackError FileEntry)
decode_handle handle none checksum metadata = returns (err (path_not_found handle.path))
decode_handle handle (some path) none metadata = returns (err object_not_found)
decode_handle handle (some path) (some checksum) none = panics
decode_handle handle (some path) (some checksum) (some metadata) = returns (
    ok (record {
      path = path;
      checksum = checksum;
      object_metadata = metadata;
      metadata = handle.metadata;
    }))

unfoldable pub handle_to_entry : PackIndex → FileHandle → Run (Result PackError FileEntry)
unfolding decode_handle
handle_to_entry index handle =
    decode_handle handle (EntryPool.lookup index.path_pool handle.path)
      (EntryPool.lookup index.object_pool handle.object)
      (BTreeMap.get handle.object index.object_metadata)

unfoldable pub entry_to_handle : PackIndex → FileEntry → PackIndex × FileHandle
entry_to_handle index entry =
    let (object_pool, object) = EntryPool.get_or_insert index.object_pool entry.checksum in
    let (path_pool, path) = EntryPool.get_or_insert index.path_pool entry.path in
    (
      record index {
        path_pool = path_pool;
        object_pool = object_pool;
        object_metadata = BTreeMap.insert object entry.object_metadata index.object_metadata;
      },
      record { path = path; object = object; metadata = entry.metadata },
    )

-- `input.into_iter().map(|e| self.entry_to_handle(&e.into()))`
pub entries_to_handles : PackIndex → List FileEntry → PackIndex × List FileHandle
unfolding entry_to_handle
entries_to_handles index [] = (index, [])
entries_to_handles index (x ∷ xs) =
    let (index', handle) = entry_to_handle index x in
    let (index'', handles) = entries_to_handles index' xs in (index'', handle ∷ handles)

pub has_snapshot : PackIndex → Tag → Bool
has_snapshot index needle = contains index.snapshot_tags needle

-- `self.current = files; self.snapshot_tags.push(tag); self.snapshot_deltas.push(delta)`
pub push_delta : PackIndex → Tag → List FileHandle → ChangeSet FileHandle → PackIndex
push_delta index tag files delta = record index {
  current = files;
  snapshot_tags = index.snapshot_tags ++ tag ∷ [];
  snapshot_deltas = index.snapshot_deltas ++ delta ∷ [];
}

pub push_files : PackIndex → Tag → List FileHandle → Run (Result PackError PackIndex)
unfolding push_delta
push_files index tag files = do
  (left, delta) ← get_changes index.current files
  returns (ok (push_delta index tag files delta))

pub push_snapshot : PackIndex → Tag → List FileEntry → Run (Result PackError PackIndex)
unfolding entries_to_handles push_files
push_snapshot index tag input =
    let (index', handles) = entries_to_handles index input in
    let pushed = push_files index' tag (HashSet.collect handles) in
    if contains index.snapshot_tags tag then returns (err (snapshot_already_exists tag)) else pushed

-- `for (tag, delta) in self.snapshot_tags.iter().zip(self.snapshot_deltas.iter())`
unfoldable pub resolve_from :
    List FileHandle → List Tag → List (ChangeSet FileHandle) → Tag → Run (Option (List FileHandle))
resolve_from current [] deltas needle = returns none
resolve_from current (tag ∷ tags) [] needle = returns none
resolve_from current (tag ∷ tags) (delta ∷ deltas) needle = do
  current' ← apply_changes current delta
  let rest = resolve_from current' tags deltas needle
  if tag == needle then returns (some current') else rest

unfoldable pub resolve_snapshot : PackIndex → Tag → Run (Option (List FileHandle))
unfolding resolve_from
resolve_snapshot index needle = resolve_from [] index.snapshot_tags index.snapshot_deltas needle

-- The counts that `for_each_snapshot_file_count` gives to its closure, where the closure goes on.
-- An `i64` is kept as the number that it stands for modulo 2^64.
pub file_counts_from : ℕ → List Tag → List (ChangeSet FileHandle) → List (Tag × ℕ)
file_counts_from count [] deltas = []
file_counts_from count (tag ∷ tags) [] = []
file_counts_from count (tag ∷ tags) (delta ∷ deltas) =
    let up = (count + length delta.added) % u64_mod in
    let count' = (up + u64_mod - length delta.removed % u64_mod) % u64_mod in
    (tag, count') ∷ file_counts_from count' tags deltas

pub file_counts : PackIndex → List (Tag × ℕ)
unfolding file_counts_from
file_counts index = file_counts_from 0 index.snapshot_tags index.snapshot_deltas
