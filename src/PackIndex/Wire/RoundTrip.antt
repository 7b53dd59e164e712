-- ===== src/PackIndex/Wire/RoundTrip.antt =====
-- `parse_v3` of packidx.rs: the order of its checks, and its round trip with the serialization.
use elfshaker.Prelude.{
  Option, ℕ, suc, ◌+◌, ◌%◌, ◌≤◌, ◌≡◌, refl, arith, List, [], ◌∷◌, ◌++◌, length, length-append, ok,
  err, ◌∙◌, append-nil, append_assoc, list_eq, nat_eq,
}
use elfshaker.Algo.{u32_mod}
use elfshaker.EntryPool
use elfshaker.EntryPool.Serde.{deserialize-serialize, entries-deserialize-serialize}
use elfshaker.BTreeMap
use elfshaker.BTreeMap.{IsDense}
use elfshaker.BTreeMap.Laws.{insert_end}
use elfshaker.PackIndex.Types.{FileHandle, ObjectMetadata, handle_eq}
use elfshaker.PackIndex.Index.{Tag, PackIndex, new, handle_to_entry, resolve_snapshot}
use elfshaker.PackIndex.Index.Tables.{IsConsistent}
use elfshaker.PackIndex.Parts.{
  unknown_required_features, LoadMode, full, only_snapshots, number_metadata, from_parts,
}
use elfshaker.PackIndex.Legacy.{LegacyEnvelope}
use elfshaker.PackIndex.Wire.{
  V3Wire, to_wire, Envelope, required_features, load_tables, parse_v3, parse, serialize,
  unsupported,
}
use elfshaker.PackIndex.Wire.Magic.{read_magic-write_magic}

-- the elements of a tuple of seven that decode well
abbrev pub envelope_of : V3Wire → Envelope
envelope_of w = record {
  fields = ok 7;
  features = ok w.features;
  snapshot_tags = ok w.snapshot_tags;
  snapshot_deltas = ok w.snapshot_deltas;
  path_pool = ok w.path_pool;
  object_pool = ok w.object_pool;
  object_metadata = ok w.object_metadata;
  extensions = ok [];
}

IsDense-append_one :
    (k h : ℕ) (v : ObjectMetadata) (m : List (ℕ × ObjectMetadata))
    → IsDense k m
    → h ≡ k + length m
    → IsDense k (m ++ (h, v) ∷ [])
IsDense-append_one k h v [] d e = ground arith
IsDense-append_one k h v ((j, w) ∷ m) (q, d) e =
    (q, IsDense-append_one (suc k) h v m d (omega arith))

number_metadata-values :
    (k : ℕ) (m done : List (ℕ × ObjectMetadata))
    → IsDense k m
    → IsDense 0 done
    → length done ≡ k
    → k + length m ≤ u32_mod
    → number_metadata k (BTreeMap.values m) done ≡ done ++ m
unfolding number_metadata BTreeMap.values
number_metadata-values k [] done d dd e fits = rw append-nil
number_metadata-values k ((j, w) ∷ m) done (q, d) dd e fits =
    let next : k + 1 ≡ suc k = omega arith in
    let low : k % u32_mod ≡ k = omega arith in
    rw (next, low, insert_end 0 k w done dd (omega arith), q, number_metadata)
      (number_metadata-values (suc k) m (done ++ (k, w) ∷ []) d
          (IsDense-append_one 0 k w done dd (omega arith))
          (omega (arith, length-append done ((k, w) ∷ []))) (omega arith)
        ∙ append_assoc done ((k, w) ∷ []) m)

-- the index that is read back from a written one
pub reloaded : PackIndex → PackIndex
reloaded index =
    from_parts index.snapshot_tags index.snapshot_deltas
      (EntryPool.deserialize (EntryPool.serialize index.path_pool))
      (EntryPool.deserialize (EntryPool.serialize index.object_pool))
      (BTreeMap.values index.object_metadata)

unsupported-required_features : (index : PackIndex) → unsupported (required_features index) ≡ 0
unfolding required_features
unsupported-required_features index = ground arith

read_magic_parse :
    (mode : LoadMode) (decode_v3 : List ℕ → Envelope) (decode_legacy : List ℕ → LegacyEnvelope)
    (from_utf16 : List ℕ → Option (List ℕ)) (encode : V3Wire → List ℕ) (index : PackIndex)
    → parse mode decode_v3 decode_legacy from_utf16 (serialize encode index)
      ≡ parse_v3 mode (decode_v3 (encode (to_wire index)))
unfolding parse serialize
read_magic_parse mode decode_v3 decode_legacy from_utf16 encode index =
    rw read_magic-write_magic refl

parse_v3-envelope_of :
    (index : PackIndex) → parse_v3 full (envelope_of (to_wire index)) ≡ ok (reloaded index)
unfolding parse_v3 to_wire load_tables reloaded required_features
parse_v3-envelope_of index = ground (arith, unsupported-required_features index)

reloaded-metadata :
    (index : PackIndex)
    → IsConsistent index
    → length index.object_pool.entries ≤ u32_mod
    → (reloaded index).object_metadata ≡ index.object_metadata
unfolding reloaded from_parts
reloaded-metadata index v fits =
    number_metadata-values 0 index.object_metadata [] v.dense tt refl (omega (arith, v.covered))

-- What is the same of two indexes: the snapshots and what each handle decodes to.
pub record SameContent (a b : PackIndex) : Type 0 where
  pub tags : a.snapshot_tags ≡ b.snapshot_tags
  pub resolved : (tag : Tag) → resolve_snapshot a tag ≡ resolve_snapshot b tag
  pub decoded : (h : FileHandle) → handle_to_entry a h ≡ handle_to_entry b h

-- An index with consistent tables, of at most 2^32 entries each, that is serialized and parsed is
-- read back whole: the same tags, resolving to the same handles, which decode to the same entries;
-- and its tables are consistent. The encoding of the tuple is assumed to be decoded as it was
-- written.
pub parse-serialize :
    (encode : V3Wire → List ℕ) (decode_v3 : List ℕ → Envelope)
    (decode_legacy : List ℕ → LegacyEnvelope) (from_utf16 : List ℕ → Option (List ℕ))
    (index : PackIndex)
    → decode_v3 (encode (to_wire index)) ≡ envelope_of (to_wire index)
    → IsConsistent index
    → length index.path_pool.entries ≤ u32_mod
    → length index.object_pool.entries ≤ u32_mod
    → (index' : PackIndex) × (parse full decode_v3 decode_legacy from_utf16 (serialize encode index)
        ≡ ok index')
      × SameContent index' index
      × IsConsistent index'
unfolding handle_to_entry resolve_snapshot reloaded from_parts
parse-serialize encode decode_v3 decode_legacy from_utf16 index codec v fits_paths fits_objects =
    let (paths, get_paths, vp) = deserialize-serialize index.path_pool v.paths fits_paths in
    let (objects, get_objects, vo) =
      deserialize-serialize index.object_pool v.objects fits_objects in
    let same_objects : (EntryPool.deserialize (EntryPool.serialize index.object_pool)).entries
        ≡ index.object_pool.entries =
      entries-deserialize-serialize index.object_pool v.objects in
    let metadata = reloaded-metadata index v fits_objects in
    (
      reloaded index,
      read_magic_parse full decode_v3 decode_legacy from_utf16 encode index
          ∙ rw codec (parse_v3-envelope_of index),
      record { tags = refl; resolved = λ tag. refl; decoded = λ h. rw (paths, objects, metadata) },
      record {
        paths = vp;
        objects = vo;
        dense = rw metadata v.dense;
        covered = rw (metadata, same_objects) v.covered;
      },
    )

-- Listing reads the tags and nothing behind them: whatever the features ask for and however the
-- tables decode, an array of two elements or more with readable tags is listed.
pub parse_v3_only_snapshots :
    (e : Envelope) (fields features : ℕ) (tags : List Tag)
    → e.fields ≡ ok fields
    → 2 ≤ fields
    → e.features ≡ ok features
    → e.snapshot_tags ≡ ok tags
    → parse_v3 only_snapshots e ≡ ok (record new { snapshot_tags = tags })
unfolding parse_v3 load_tables
parse_v3_only_snapshots e fields features tags pf two pfe pt = ground arith

-- A full load of an index with an unknown required feature is refused by name, whatever the tables
-- behind the tags hold and whatever the length of the array.
pub parse_v3_unknown_features :
    (e : Envelope) (fields features : ℕ) (tags : List Tag)
    → e.fields ≡ ok fields
    → 2 ≤ fields
    → e.features ≡ ok features
    → e.snapshot_tags ≡ ok tags
    → 2 ≤ features
    → parse_v3 full e ≡ err (unknown_required_features (unsupported features))
unfolding parse_v3 load_tables
parse_v3_unknown_features e fields features tags pf two pfe pt high = ground arith
