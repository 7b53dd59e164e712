-- ===== src/PackIndex/Legacy.antt =====
-- Versions 1 and 2 of the on-disk form in packidx.rs.
pub mod Load
use elfshaker.Prelude.{
  ℕ, List, [], ◌∷◌, map, Option, eqb, if◌then◌else◌, Result, ok, err, and_then, map_err, list_eq,
  nat_eq,
}
use elfshaker.EntryPool
use elfshaker.EntryPool.{Handle, EntryPool}
use elfshaker.LegacyPath.{
  LegacyWirePath, LegacyPathError, unsupported_windows_utf16, invalid_logical_path, wire_path_eq,
  intern_paths,
}
use elfshaker.PackIndex.Types.{ObjectChecksum, FileHandle, ObjectMetadata, ChangeSet, regular}
use elfshaker.PackIndex.Index.{Tag, PackIndex, new}
use elfshaker.PackIndex.Parts
use elfshaker.PackIndex.Parts.{
  ParseError, length_mismatch, LoadMode, full, only_snapshots, from_parts,
}

-- `mode` is that of `file_metadata`
pub record LegacyFileHandle : Type 0 where
  pub path : Handle
  pub object : Handle
  pub mode : ℕ

-- what rmp and rmp_serde make of the bytes after the version
pub record LegacyEnvelope : Type 0 where
  pub fields : Result ParseError ℕ
  pub snapshot_tags : Result ParseError (List Tag)
  pub snapshot_deltas : Result ParseError (List (ChangeSet LegacyFileHandle))
  pub path_pool : Result ParseError (List LegacyWirePath)
  pub object_pool : Result ParseError (List ObjectChecksum)
  pub object_metadata : Result ParseError (List ObjectMetadata)

abbrev pub from_legacy_handle : LegacyFileHandle → FileHandle
from_legacy_handle handle = record {
  path = handle.path;
  object = handle.object;
  metadata = regular handle.mode;
}

abbrev pub from_legacy_changes : ChangeSet LegacyFileHandle → ChangeSet FileHandle
from_legacy_changes changes = record {
  added = map from_legacy_handle changes.added;
  removed = map from_legacy_handle changes.removed;
}

abbrev pub path_error : LegacyPathError → ParseError
path_error (unsupported_windows_utf16 units) = Parts.unsupported_path_encoding units
path_error (invalid_logical_path error) = Parts.invalid_logical_path error

module _ (from_utf16 : List ℕ → Option (List ℕ)) where
  pub from_legacy :
      List Tag
      → List (ChangeSet LegacyFileHandle)
      → EntryPool LegacyWirePath
      → EntryPool ObjectChecksum
      → List ObjectMetadata
      → Result ParseError PackIndex
  from_legacy tags deltas paths objects metadata =
      and_then (map_err path_error (intern_paths from_utf16 EntryPool.new paths.entries))
        λ pool. ok (from_parts tags (map from_legacy_changes deltas) pool objects metadata)

  pub read_legacy_tables : LegacyEnvelope → List Tag → Result ParseError PackIndex
  unfolding from_legacy
  read_legacy_tables e tags = and_then e.snapshot_deltas λ deltas. and_then e.path_pool λ paths.
      and_then e.object_pool λ objects. and_then e.object_metadata λ metadata.
        from_legacy tags deltas (EntryPool.deserialize paths) (EntryPool.deserialize objects)
          metadata

  pub load_legacy : LoadMode → LegacyEnvelope → List Tag → Result ParseError PackIndex
  unfolding read_legacy_tables
  load_legacy only_snapshots e tags = ok (record new { snapshot_tags = tags })
  load_legacy full e tags = read_legacy_tables e tags

  pub parse_legacy : LoadMode → LegacyEnvelope → Result ParseError PackIndex
  unfolding load_legacy
  parse_legacy mode e = and_then e.fields λ fields.
      if eqb fields 5
      then and_then e.snapshot_tags (load_legacy mode e)
      else err (length_mismatch 5)
