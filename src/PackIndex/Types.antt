-- ===== src/PackIndex/Types.antt =====
-- The data of packidx.rs.
use elfshaker.Prelude.{ℕ, ◌≡◌, ◌↔◌, arith, Bool, true, false, ◌&&◌, List, Eq, list_eq, nat_eq, eqb}
use elfshaker.EntryPool.{Handle}

-- a SHA-1 digest
abbrev pub ObjectChecksum : Type 0
ObjectChecksum = List ℕ

-- the bytes of a `PackPath`
abbrev pub PathBytes : Type 0
PathBytes = List ℕ

pub data SymlinkTargetEncoding : Type 0 where
  portable_utf8 unix_bytes windows_utf16_le : SymlinkTargetEncoding

pub data SymlinkTargetKind : Type 0 where
  file directory unknown : SymlinkTargetKind

abbrev pub encoding_tag : SymlinkTargetEncoding → ℕ
encoding_tag portable_utf8 = 0
encoding_tag unix_bytes = 1
encoding_tag windows_utf16_le = 2

abbrev pub kind_tag : SymlinkTargetKind → ℕ
kind_tag file = 0
kind_tag directory = 1
kind_tag unknown = 2

pub data EntryMetadata : Type 0 where
  regular : ℕ → EntryMetadata
  symlink : SymlinkTargetEncoding → SymlinkTargetKind → EntryMetadata

abbrev pub is_symlink : EntryMetadata → Bool
is_symlink (regular mode) = false
is_symlink (symlink encoding kind) = true

-- `object_metadata` of a loose object has this offset
abbrev pub loose_object_offset : ℕ
loose_object_offset = 0xffff_ffff_ffff_ffff

pub record FileHandle : Type 0 where
  pub path : Handle
  pub object : Handle
  pub metadata : EntryMetadata

pub record ObjectMetadata : Type 0 where
  pub offset : ℕ
  pub size : ℕ

pub record FileEntry : Type 0 where
  pub path : PathBytes
  pub checksum : ObjectChecksum
  pub object_metadata : ObjectMetadata
  pub metadata : EntryMetadata

pub record ChangeSet {ℓ} (A : Type ℓ) : Type ℓ where
  pub added : List A
  pub removed : List A

abbrev pub metadata_beq : EntryMetadata → EntryMetadata → Bool
metadata_beq (regular m) (regular n) = eqb m n
metadata_beq (symlink e k) (symlink f l) =
    eqb (encoding_tag e) (encoding_tag f) && eqb (kind_tag k) (kind_tag l)
metadata_beq _ _ = false

encoding_tag-injective : (e f : SymlinkTargetEncoding) → encoding_tag e ≡ encoding_tag f → e ≡ f
encoding_tag-injective e f h = ground arith

kind_tag-injective : (k l : SymlinkTargetKind) → kind_tag k ≡ kind_tag l → k ≡ l
kind_tag-injective k l h = ground arith

metadata_beq→eq : (m n : EntryMetadata) → metadata_beq m n ≡ true → m ≡ n
metadata_beq→eq (regular m) (regular n) h = ground arith
metadata_beq→eq (regular m) (symlink f l) h = cc
metadata_beq→eq (symlink e k) (regular n) h = cc
metadata_beq→eq (symlink e k) (symlink f l) h =
    ground (arith, encoding_tag-injective e f, kind_tag-injective k l)

metadata_beq_refl : (m : EntryMetadata) → metadata_beq m m ≡ true
metadata_beq_refl (regular m) = ground arith
metadata_beq_refl (symlink e k) = ground arith

pub metadata_beq_iff : (m n : EntryMetadata) → (metadata_beq m n ≡ true) ↔ (m ≡ n)
metadata_beq_iff m n = (metadata_beq→eq m n, λ p. ground (arith, metadata_beq_refl m))

instance abbrev pub metadata_eq : Eq EntryMetadata
metadata_eq = record { beq = metadata_beq; beq_iff = metadata_beq_iff }

abbrev pub handle_beq : FileHandle → FileHandle → Bool
handle_beq a b = eqb a.path b.path && (eqb a.object b.object && metadata_beq a.metadata b.metadata)

pub handle_beq_iff : (a b : FileHandle) → (handle_beq a b ≡ true) ↔ (a ≡ b)
handle_beq_iff a b = (
  λ h. ground (arith, metadata_beq→eq a.metadata b.metadata),
  λ h. ground (arith, metadata_beq_refl a.metadata),
)

instance abbrev pub handle_eq : Eq FileHandle
handle_eq = record { beq = handle_beq; beq_iff = handle_beq_iff }
