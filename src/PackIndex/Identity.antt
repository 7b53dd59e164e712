-- ===== src/PackIndex/Identity.antt =====
-- `compute_snapshot_checksum` of packidx.rs: the bytes by which snapshots are told apart.
pub mod Bytes
pub mod Order
pub mod Members
pub mod Known
pub mod Push
use elfshaker.Prelude.{
  ℕ, ◌/◌, ◌%◌, ◌^◌, Bool, Option, none, some, List, [], ◌∷◌, ◌++◌, map, length, leb, lex, sort, Run,
  returns, panics, ◌>>=◌, Result, ok, err, and_then, list_eq, nat_eq,
}
use elfshaker.EntryPool
use elfshaker.BTreeMap
use elfshaker.PackIndex.Types.{
  ObjectChecksum, PathBytes, FileHandle, FileEntry, EntryMetadata, regular, symlink, encoding_tag,
  kind_tag,
}
use elfshaker.PackIndex.Index.{Tag, PackError, PackIndex, decode_handle, resolve_snapshot}

-- A `FileEntryRef` is an entry whose parts stand in the index.
unfoldable pub handle_to_entry_ref : PackIndex → FileHandle → Run (Result PackError FileEntry)
unfolding decode_handle
handle_to_entry_ref index handle =
    decode_handle handle (EntryPool.lookup index.path_pool handle.path)
      (EntryPool.lookup index.object_pool handle.object)
      (BTreeMap.get handle.object index.object_metadata)

-- `map(..).collect::<Result<Vec<_>, _>>()`: the first error ends it
unfoldable pub entry_refs_from_handles :
    PackIndex → List FileHandle → Run (Result PackError (List FileEntry))
unfolding handle_to_entry_ref
entry_refs_from_handles index [] = returns (ok [])
entry_refs_from_handles index (h ∷ hs) =
    let rest = entry_refs_from_handles index hs in
    handle_to_entry_ref index h >>= λ first. elim first [
      | err e ↦ returns (err e)
      | ok entry ↦ rest >>= λ others. returns (and_then others λ entries. ok (entry ∷ entries))
    ]

-- `to_be_bytes` of a `u64` and of a `u32`
abbrev pub u64_to_be_bytes : ℕ → List ℕ
u64_to_be_bytes n =
    (n / 2 ^ 56 % 256)
    ∷ (n / 2 ^ 48 % 256)
    ∷ (n / 2 ^ 40 % 256)
    ∷ (n / 2 ^ 32 % 256)
    ∷ (n / 2 ^ 24 % 256)
    ∷ (n / 2 ^ 16 % 256)
    ∷ (n / 2 ^ 8 % 256)
    ∷ (n % 256)
    ∷ []

abbrev pub u32_to_be_bytes : ℕ → List ℕ
u32_to_be_bytes n = (n / 2 ^ 24 % 256) ∷ (n / 2 ^ 16 % 256) ∷ (n / 2 ^ 8 % 256) ∷ (n % 256) ∷ []

-- "elfshaker-snapshot-identity\0v3\0"
unfoldable pub identity_header : List ℕ
identity_header =
    b'e' ∷ b'l' ∷ b'f' ∷ b's' ∷ b'h' ∷ b'a' ∷ b'k' ∷ b'e' ∷ b'r' ∷ b'-' ∷ b's' ∷ b'n' ∷ b'a' ∷ b'p'
    ∷ b's' ∷ b'h' ∷ b'o' ∷ b't' ∷ b'-' ∷ b'i' ∷ b'd' ∷ b'e' ∷ b'n' ∷ b't' ∷ b'i' ∷ b't' ∷ b'y' ∷ 0
    ∷ b'v' ∷ b'3' ∷ 0 ∷ []

abbrev pub metadata_bytes : ObjectChecksum → EntryMetadata → List ℕ
metadata_bytes checksum (regular mode) = 0 ∷ checksum ++ u32_to_be_bytes mode
metadata_bytes checksum (symlink encoding kind) =
    1 ∷ checksum ++ encoding_tag encoding ∷ kind_tag kind ∷ []

unfoldable pub entry_bytes : FileEntry → List ℕ
entry_bytes entry =
    u64_to_be_bytes (length entry.path)
    ++ (entry.path ++ metadata_bytes entry.checksum entry.metadata)

-- the `fold` over the entries
unfoldable pub entries_bytes : List FileEntry → List ℕ
unfolding entry_bytes
entries_bytes [] = []
entries_bytes (entry ∷ entries) = entry_bytes entry ++ entries_bytes entries

abbrev pub path_le : FileEntry → FileEntry → Bool
path_le a b = lex leb a.path b.path

-- the bytes that are hashed of the entries in order
unfoldable pub sorted_bytes : List FileEntry → List ℕ
unfolding identity_header entries_bytes
sorted_bytes entries =
    identity_header ++ (u64_to_be_bytes (length entries) ++ entries_bytes entries)

-- what the hasher is given
unfoldable pub identity_bytes : List FileEntry → List ℕ
unfolding sorted_bytes
identity_bytes entries = sorted_bytes (sort path_le entries)

unfoldable pub checksum_of :
    (List ℕ → ObjectChecksum) → Result PackError (List FileEntry) → Option ObjectChecksum
unfolding identity_bytes
checksum_of sha1 (err e) = none
checksum_of sha1 (ok entries) = some (sha1 (identity_bytes entries))

unfoldable pub compute_snapshot_checksum :
    (List ℕ → ObjectChecksum) → PackIndex → Tag → Run (Option ObjectChecksum)
unfolding entry_refs_from_handles checksum_of
compute_snapshot_checksum sha1 index snapshot = resolve_snapshot index snapshot >>= λ resolved.
    elim resolved [
      | none ↦ returns none
      | some handles ↦
          entry_refs_from_handles index handles >>= λ entries. returns (checksum_of sha1 entries)
    ]
