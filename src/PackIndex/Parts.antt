-- ===== src/PackIndex/Parts.antt =====
-- What the versions of the on-disk form in packidx.rs share: errors, load modes, `from_parts`.
use elfshaker.Prelude.{ℕ, ◌+◌, ◌%◌, List, [], ◌∷◌, list_eq, nat_eq}
use elfshaker.Algo.{u32_mod}
use elfshaker.EntryPool.{Handle, EntryPool}
use elfshaker.BTreeMap
use elfshaker.PackPath.{PackPathError}
use elfshaker.PackIndex.Types.{ObjectChecksum, PathBytes, FileHandle, ObjectMetadata, ChangeSet}
use elfshaker.PackIndex.Index.{Tag, PackIndex}

-- the errors of `PackError` that parsing returns; `decode` is an error of rmp_serde
pub data ParseError : Type 0 where
  unexpected_eof bad_magic decode : ParseError
  bad_pack_version : ℕ → ParseError
  length_mismatch : ℕ → ParseError
  unknown_required_features : ℕ → ParseError
  -- the UTF-16 units of the path, without the text around them
  unsupported_path_encoding : List ℕ → ParseError
  invalid_logical_path : PackPathError → ParseError

pub data LoadMode : Type 0 where
  full only_snapshots : LoadMode

-- `object_metadata.into_iter().enumerate().map(..).collect()`
unfoldable pub number_metadata :
    ℕ → List ObjectMetadata → List (Handle × ObjectMetadata) → List (Handle × ObjectMetadata)
number_metadata i [] map_ = map_
number_metadata i (m ∷ ms) map_ = number_metadata (i + 1) ms (BTreeMap.insert (i % u32_mod) m map_)

unfoldable pub from_parts :
    List Tag
    → List (ChangeSet FileHandle)
    → EntryPool PathBytes
    → EntryPool ObjectChecksum
    → List ObjectMetadata
    → PackIndex
unfolding number_metadata
from_parts tags deltas path_pool object_pool metadata = record {
  snapshot_tags = tags;
  snapshot_deltas = deltas;
  path_pool = path_pool;
  object_pool = object_pool;
  object_metadata = number_metadata 0 metadata [];
  current = [];
}
