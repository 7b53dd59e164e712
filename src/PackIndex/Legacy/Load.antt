-- ===== src/PackIndex/Legacy/Load.antt =====
-- `parse_legacy` of packidx.rs: what an index of version 1 or 2 is loaded as.
use elfshaker.Prelude.{ℕ, ◌≡◌, refl, ap, [], ◌∷◌, Option, List, map, ok, get_elem?, list_eq, nat_eq}
use elfshaker.HashSet.{IsDistinct}
use elfshaker.EntryPool
use elfshaker.EntryPool.{Handle, EntryPool}
use elfshaker.EntryPool.Serde.{entries-deserialize}
use elfshaker.LegacyPath.{LegacyWirePath, wire_path_eq}
use elfshaker.LegacyPath.Pool.{DecodeTo, intern_paths-lookup}
use elfshaker.PackIndex.Types.{ObjectChecksum, FileHandle, ObjectMetadata, ChangeSet, regular}
use elfshaker.PackIndex.Index.{Tag, PackIndex}
use elfshaker.PackIndex.Parts.{full, from_parts}
use elfshaker.PackIndex.Legacy.{
  LegacyFileHandle, LegacyEnvelope, from_legacy_handle, from_legacy_changes, from_legacy,
  read_legacy_tables, load_legacy, parse_legacy,
}

-- five tables that decode well
abbrev pub legacy_envelope :
    List Tag
    → List (ChangeSet LegacyFileHandle)
    → List LegacyWirePath
    → List ObjectChecksum
    → List ObjectMetadata
    → LegacyEnvelope
legacy_envelope tags deltas paths objects metadata = record {
  fields = ok 5;
  snapshot_tags = ok tags;
  snapshot_deltas = ok deltas;
  path_pool = ok paths;
  object_pool = ok objects;
  object_metadata = ok metadata;
}

-- two lists of one length whose elements are related one by one
abbrev pub AllPairs : {A B : Type 0} → (A → B → Type 0) → List A → List B → Type 0
AllPairs r [] [] = Unit
AllPairs r (x ∷ xs) (y ∷ ys) = r x y × AllPairs r xs ys
AllPairs r _ _ = ⊥

AllPairs-map :
    {A B : Type 0} (r : A → B → Type 0) (f : A → B)
    → ((x : A) → r x (f x))
    → (xs : List A) → AllPairs r xs (map f xs)
AllPairs-map r f each [] = tt
AllPairs-map r f each (x ∷ xs) = (each x, AllPairs-map r f each xs)

-- The handle names the path and the object of the legacy handle, as a regular file of its mode.
pub record LoadsHandle (paths : List (List ℕ)) (objects : List ObjectChecksum) (index : PackIndex)
    (legacy : LegacyFileHandle) (handle : FileHandle) : Type 0 where
  pub path : EntryPool.lookup index.path_pool handle.path ≡ get_elem? paths legacy.path
  pub object : EntryPool.lookup index.object_pool handle.object ≡ get_elem? objects legacy.object
  pub metadata : handle.metadata ≡ regular legacy.mode

-- the additions and the removals, in order
pub record LoadsChanges (paths : List (List ℕ)) (objects : List ObjectChecksum) (index : PackIndex)
    (legacy : ChangeSet LegacyFileHandle) (changes : ChangeSet FileHandle) : Type 0 where
  pub added : AllPairs (LoadsHandle paths objects index) legacy.added changes.added
  pub removed : AllPairs (LoadsHandle paths objects index) legacy.removed changes.removed

from_legacy_handle-LoadsHandle :
    (paths : List (List ℕ)) (objects : List ObjectChecksum) (index : PackIndex)
    → ((h : Handle) → EntryPool.lookup index.path_pool h ≡ get_elem? paths h)
    → ((h : Handle) → EntryPool.lookup index.object_pool h ≡ get_elem? objects h)
    → (h : LegacyFileHandle) → LoadsHandle paths objects index h (from_legacy_handle h)
from_legacy_handle-LoadsHandle paths objects index at_path at_object h = record {
  path = at_path h.path;
  object = at_object h.object;
  metadata = refl;
}

module _ (from_utf16 : List ℕ → Option (List ℕ)) where
  -- A full load of a legacy index whose wire paths are different and decode to different paths,
  -- and whose objects are different, succeeds. The tags are those of the file, and so are the
  -- deltas, one by one and in order: each handle names the decoded path and the checksum that
  -- the handle in the file has the places of, as a regular file of the same mode.
  pub parse_legacy-lookup :
      (tags : List Tag) (deltas : List (ChangeSet LegacyFileHandle)) (wires : List LegacyWirePath)
      (objects : List ObjectChecksum) (metadata : List ObjectMetadata) (paths : List (List ℕ))
      → IsDistinct wires
      → DecodeTo from_utf16 wires paths
      → IsDistinct paths
      → IsDistinct objects
      → (index : PackIndex) × (parse_legacy from_utf16 full
            (legacy_envelope tags deltas wires objects metadata)
          ≡ ok index)
        × (index.snapshot_tags ≡ tags)
        × AllPairs (LoadsChanges paths objects index) deltas index.snapshot_deltas
        × ((h : Handle) → EntryPool.lookup index.path_pool h ≡ get_elem? paths h)
  unfolding parse_legacy load_legacy read_legacy_tables from_legacy from_parts EntryPool.lookup
  parse_legacy-lookup tags deltas wires objects metadata paths distinct d distinct_paths
        distinct_objects =
      let (pool, eq, at) = intern_paths-lookup from_utf16 wires paths d distinct_paths in
      let index =
        from_parts tags (map from_legacy_changes deltas) pool (EntryPool.deserialize objects)
          metadata in
      let each =
        from_legacy_handle-LoadsHandle paths objects index at
          (λ h. ap (λ es. get_elem? es h) (entries-deserialize objects distinct_objects)) in
      (
        index,
        rw (entries-deserialize wires distinct, eq) refl,
        refl,
        AllPairs-map (LoadsChanges paths objects index) from_legacy_changes
            (λ c. record {
              added =
                  AllPairs-map (LoadsHandle paths objects index) from_legacy_handle each c.added;
              removed =
                  AllPairs-map (LoadsHandle paths objects index) from_legacy_handle each c.removed;
            })
            deltas,
        at,
      )
