-- ===== src/PackIndex/Wire.antt =====
-- The on-disk form of packidx.rs: the magic, the version 3 envelope and the tables in it.
pub mod Magic
pub mod RoundTrip
use elfshaker.Prelude.{
  ℕ, zero, suc, ◌+◌, ◌*◌, ◌/◌, ◌%◌, ◌^◌, Bool, true, false, ◌||◌, Option, none, some, List, [], ◌∷◌,
  ◌++◌, length, take, drop, ltb, leb, eqb, if◌then◌else◌, Result, ok, err, and_then, list_eq,
  nat_eq, Eq, ◌==◌, map,
}
use elfshaker.Algo.{u32_mod}
use elfshaker.EntryPool
use elfshaker.EntryPool.{Handle, EntryPool}
use elfshaker.BTreeMap
use elfshaker.PackIndex.Types.{
  ObjectChecksum, PathBytes, FileHandle, ObjectMetadata, ChangeSet, is_symlink,
}
use elfshaker.PackIndex.Index.{Tag, PackIndex, new}
use elfshaker.PackIndex.Parts.{
  ParseError, unexpected_eof, bad_magic, decode, bad_pack_version, length_mismatch,
  unknown_required_features, LoadMode, full, only_snapshots, from_parts, number_metadata,
}
use elfshaker.PackIndex.Legacy.{LegacyEnvelope, parse_legacy}

abbrev pub max_version : ℕ
max_version = 3

abbrev pub write_version : ℕ
write_version = 3

abbrev pub feature_symlinks : ℕ
feature_symlinks = 1

-- "ELFS"
abbrev pub magic : List ℕ
magic = 0x45 ∷ 0x4c ∷ 0x46 ∷ 0x53 ∷ []

abbrev pub u32_to_be_bytes : ℕ → List ℕ
u32_to_be_bytes n = (n / 2 ^ 24 % 256) ∷ (n / 2 ^ 16 % 256) ∷ (n / 2 ^ 8 % 256) ∷ (n % 256) ∷ []

-- four bytes, most significant first
abbrev pub u32_from_be_bytes : List ℕ → ℕ
u32_from_be_bytes [] = 0
u32_from_be_bytes (b ∷ bs) = b * 256 ^ length bs + u32_from_be_bytes bs

-- `read_exact` of `n` bytes, and the bytes that follow
pub read_exact : ℕ → List ℕ → Result ParseError (List ℕ × List ℕ)
read_exact n bytes =
    if ltb (length bytes) n then err unexpected_eof else ok (take n bytes, drop n bytes)

unfoldable pub check_version : ℕ → List ℕ → Result ParseError (ℕ × List ℕ)
check_version version rest =
    if ltb version 1 || ltb max_version version
    then err (bad_pack_version version)
    else ok (version, rest)

unfoldable pub read_magic : List ℕ → Result ParseError (ℕ × List ℕ)
unfolding read_exact check_version
read_magic bytes = and_then (read_exact 4 bytes) λ first.
    if first.0 == magic
    then and_then (read_exact 4 first.1)
        (λ second. check_version (u32_from_be_bytes second.0) second.1)
    else err bad_magic

unfoldable pub write_magic : List ℕ
write_magic = magic ++ u32_to_be_bytes write_version

pub any_symlink : List FileHandle → Bool
any_symlink [] = false
any_symlink (h ∷ hs) = is_symlink h.metadata || any_symlink hs

pub any_symlink_delta : List (ChangeSet FileHandle) → Bool
unfolding any_symlink
any_symlink_delta [] = false
any_symlink_delta (d ∷ ds) = any_symlink d.added || any_symlink d.removed || any_symlink_delta ds

pub required_features : PackIndex → ℕ
unfolding any_symlink_delta
required_features index = if any_symlink_delta index.snapshot_deltas then feature_symlinks else 0

-- The elements of the tuple of seven that `V3Index` serializes, its empty list of extensions left
-- out.
pub record V3Wire : Type 0 where
  pub features : ℕ
  pub snapshot_tags : List Tag
  pub snapshot_deltas : List (ChangeSet FileHandle)
  pub path_pool : List PathBytes
  pub object_pool : List ObjectChecksum
  pub object_metadata : List ObjectMetadata

pub to_wire : PackIndex → V3Wire
unfolding required_features
to_wire index = record {
  features = required_features index;
  snapshot_tags = index.snapshot_tags;
  snapshot_deltas = index.snapshot_deltas;
  path_pool = EntryPool.serialize index.path_pool;
  object_pool = EntryPool.serialize index.object_pool;
  object_metadata = BTreeMap.values index.object_metadata;
}

-- What rmp and rmp_serde make of the bytes after the version: the length of the array, and each
-- element that they would decode next.
pub record Envelope : Type 0 where
  pub fields : Result ParseError ℕ
  pub features : Result ParseError ℕ
  pub snapshot_tags : Result ParseError (List Tag)
  pub snapshot_deltas : Result ParseError (List (ChangeSet FileHandle))
  pub path_pool : Result ParseError (List PathBytes)
  pub object_pool : Result ParseError (List ObjectChecksum)
  pub object_metadata : Result ParseError (List ObjectMetadata)
  pub extensions : Result ParseError (List (ℕ × List ℕ))

unfoldable pub read_tables : Envelope → List Tag → Result ParseError PackIndex
read_tables e tags = and_then e.snapshot_deltas λ deltas. and_then e.path_pool λ paths.
    and_then e.object_pool λ objects. and_then e.object_metadata λ metadata.
      and_then e.extensions λ _. ok (
        from_parts tags deltas (EntryPool.deserialize paths) (EntryPool.deserialize objects)
          metadata)

-- `required_features & !SUPPORTED_REQUIRED_FEATURES`, where the supported feature is the lowest bit
abbrev pub unsupported : ℕ → ℕ
unsupported features = features / 2 * 2

unfoldable pub load_tables : LoadMode → ℕ → ℕ → List Tag → Envelope → Result ParseError PackIndex
unfolding read_tables
load_tables only_snapshots fields features tags e = ok (record new { snapshot_tags = tags })
load_tables full fields features tags e =
    if eqb (unsupported features) 0
    then if eqb fields 7 then read_tables e tags else err (length_mismatch 7)
    else err (unknown_required_features (unsupported features))

unfoldable pub parse_v3 : LoadMode → Envelope → Result ParseError PackIndex
unfolding load_tables
parse_v3 mode e = and_then e.fields λ fields.
    if ltb fields 2
    then err (length_mismatch 2)
    else and_then e.features
        (λ features. and_then e.snapshot_tags (λ tags. load_tables mode fields features tags e))

-- `PackIndex::parse`, and `load_only_snapshots` but for taking the tags out of its index, over
-- what is made of the bytes behind the version, and over `String::from_utf16`
unfoldable pub parse :
    LoadMode
    → (List ℕ → Envelope)
    → (List ℕ → LegacyEnvelope)
    → (List ℕ → Option (List ℕ))
    → List ℕ
    → Result ParseError PackIndex
unfolding read_magic parse_v3
parse mode decode_v3 decode_legacy from_utf16 bytes = and_then (read_magic bytes) λ header.
    if eqb header.0 3
    then parse_v3 mode (decode_v3 header.1)
    else parse_legacy from_utf16 mode (decode_legacy header.1)

-- `serialize`, over the encoding of the tuple by rmp_serde
pub serialize : (V3Wire → List ℕ) → PackIndex → List ℕ
unfolding to_wire write_magic
serialize encode index = write_magic ++ encode (to_wire index)
