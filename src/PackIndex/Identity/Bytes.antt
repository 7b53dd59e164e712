-- ===== src/PackIndex/Identity/Bytes.antt =====
-- The identity of a snapshot in packidx.rs: its bytes can be read in one way only.
use elfshaker.Prelude.{
  ℕ, ◌<◌, ◌≡◌, refl, sym, ap, arith, Bool, true, ◌&&◌, List, [], ◌∷◌, ◌++◌, map, length, All, Eq,
  ◌==◌, list_eq, nat_eq, ◌↔◌, list_beq_iff, append_assoc, ◌∙◌,
}
use elfshaker.Algo.{u64_mod, u32_mod}
use elfshaker.PackIndex.Types.{
  ObjectChecksum, PathBytes, FileEntry, EntryMetadata, regular, symlink, SymlinkTargetEncoding,
  SymlinkTargetKind, encoding_tag, kind_tag, metadata_beq, metadata_beq_iff, metadata_eq,
}
use elfshaker.PackIndex.Identity.{
  u64_to_be_bytes, u32_to_be_bytes, metadata_bytes, entry_bytes, entries_bytes,
}

-- What makes up the identity of an entry: all but the place of its object.
pub record Content : Type 0 where
  pub path : PathBytes
  pub checksum : ObjectChecksum
  pub metadata : EntryMetadata

abbrev pub content_of : FileEntry → Content
content_of entry = record {
  path = entry.path;
  checksum = entry.checksum;
  metadata = entry.metadata;
}

abbrev pub content_beq : Content → Content → Bool
content_beq a b =
    a.path == b.path && (a.checksum == b.checksum && metadata_beq a.metadata b.metadata)

pub content_beq_iff : (a b : Content) → (content_beq a b ≡ true) ↔ (a ≡ b)
content_beq_iff a b = (
  λ h. ground (
    arith,
    list_beq_iff a.path b.path,
    list_beq_iff a.checksum b.checksum,
    metadata_beq_iff a.metadata b.metadata,
  ),
  λ h. ground (
    arith,
    list_beq_iff a.path b.path,
    list_beq_iff a.checksum b.checksum,
    metadata_beq_iff a.metadata b.metadata,
  ),
)

instance abbrev pub content_eq : Eq Content
content_eq = record { beq = content_beq; beq_iff = content_beq_iff }

abbrev ModeFits : EntryMetadata → Type 0
ModeFits (regular mode) = mode < u32_mod
ModeFits (symlink encoding kind) = Unit

-- a SHA-1 digest, a path of fewer than 2^64 bytes, and a mode of 32 bits
pub record Fits (entry : FileEntry) : Type 0 where
  pub path : length entry.path < u64_mod
  pub checksum : length entry.checksum ≡ 20
  pub mode : ModeFits entry.metadata

cons-injective : (a b : ℕ) (xs ys : List ℕ) → a ∷ xs ≡ b ∷ ys → (a ≡ b) × (xs ≡ ys)
cons-injective a b xs ys h = (cc, cc)

pub append-injective :
    (xs ys us vs : List ℕ) → length xs ≡ length ys → xs ++ us ≡ ys ++ vs → (xs ≡ ys) × (us ≡ vs)
append-injective [] [] us vs l h = (refl, h)
append-injective [] (y ∷ ys) us vs l h = absurd (omega arith)
append-injective (x ∷ xs) [] us vs l h = absurd (omega arith)
append-injective (x ∷ xs) (y ∷ ys) us vs l h =
    let (p, q) = cons-injective x y (xs ++ us) (ys ++ vs) h in
    let (r, s) = append-injective xs ys us vs (omega arith) q in (cc, s)

pub u64_to_be_bytes-injective :
    (m n : ℕ) (us vs : List ℕ)
    → m < u64_mod
    → n < u64_mod
    → u64_to_be_bytes m ++ us ≡ u64_to_be_bytes n ++ vs
    → (m ≡ n) × (us ≡ vs)
u64_to_be_bytes-injective m n us vs h k e =
    let (e1, r1) = cons-injective _ _ _ _ e in
    let (e2, r2) = cons-injective _ _ _ _ r1 in
    let (e3, r3) = cons-injective _ _ _ _ r2 in
    let (e4, r4) = cons-injective _ _ _ _ r3 in
    let (e5, r5) = cons-injective _ _ _ _ r4 in
    let (e6, r6) = cons-injective _ _ _ _ r5 in
    let (e7, r7) = cons-injective _ _ _ _ r6 in
    let (e8, r8) = cons-injective _ _ _ _ r7 in (omega arith, r8)

u32_to_be_bytes-injective :
    (m n : ℕ) (us vs : List ℕ)
    → m < u32_mod
    → n < u32_mod
    → u32_to_be_bytes m ++ us ≡ u32_to_be_bytes n ++ vs
    → (m ≡ n) × (us ≡ vs)
u32_to_be_bytes-injective m n us vs h k e =
    let (e1, r1) = cons-injective _ _ _ _ e in
    let (e2, r2) = cons-injective _ _ _ _ r1 in
    let (e3, r3) = cons-injective _ _ _ _ r2 in
    let (e4, r4) = cons-injective _ _ _ _ r3 in (omega arith, r4)

encoding_tag-injective : (e f : SymlinkTargetEncoding) → encoding_tag e ≡ encoding_tag f → e ≡ f
encoding_tag-injective e f h = ground arith

kind_tag-injective : (k l : SymlinkTargetKind) → kind_tag k ≡ kind_tag l → k ≡ l
kind_tag-injective k l h = ground arith

metadata_bytes-injective :
    (c d : ObjectChecksum) (m n : EntryMetadata) (us vs : List ℕ)
    → length c ≡ length d
    → ModeFits m
    → ModeFits n
    → metadata_bytes c m ++ us ≡ metadata_bytes d n ++ vs
    → (c ≡ d) × (m ≡ n) × (us ≡ vs)
metadata_bytes-injective c d (regular m) (symlink f l) us vs s h k e =
    absurd (omega (arith, (cons-injective 0 1 _ _ e).0))
metadata_bytes-injective c d (symlink e k) (regular n) us vs s h j q =
    absurd (omega (arith, (cons-injective 1 0 _ _ q).0))
metadata_bytes-injective c d (regular m) (regular n) us vs s h k e =
    let (_, rest) = cons-injective 0 0 _ _ e in
    let (p, q) = append-injective c d (u32_to_be_bytes m ++ us) (u32_to_be_bytes n ++ vs) s (
      sym (append_assoc c (u32_to_be_bytes m) us) ∙ rest ∙ append_assoc d (u32_to_be_bytes n) vs) in
    let (r, t) = u32_to_be_bytes-injective m n us vs h k q in (p, ap regular r, t)
metadata_bytes-injective c d (symlink e k) (symlink f l) us vs s h j q =
    let (_, rest) = cons-injective 1 1 _ _ q in
    let (p, tags) =
      append-injective c d (encoding_tag e ∷ kind_tag k ∷ us) (encoding_tag f ∷ kind_tag l ∷ vs) s (
        sym (append_assoc c (encoding_tag e ∷ kind_tag k ∷ []) us)
        ∙ rest
        ∙ append_assoc d (encoding_tag f ∷ kind_tag l ∷ []) vs) in
    let (a, tags') = cons-injective _ _ _ _ tags in
    let (b, t) = cons-injective _ _ _ _ tags' in
    let x = encoding_tag-injective e f a in let y = kind_tag-injective k l b in (p, cc, t)

entry_bytes-injective :
    (x y : FileEntry) (us vs : List ℕ)
    → Fits x
    → Fits y
    → entry_bytes x ++ us ≡ entry_bytes y ++ vs
    → (content_of x ≡ content_of y) × (us ≡ vs)
unfolding entry_bytes
entry_bytes-injective x y us vs f g e =
    let (l, rest) =
      u64_to_be_bytes-injective (length x.path) (length y.path)
        ((x.path ++ metadata_bytes x.checksum x.metadata) ++ us)
        ((y.path ++ metadata_bytes y.checksum y.metadata) ++ vs) f.path g.path e in
    let (p, rest') =
      append-injective x.path y.path (metadata_bytes x.checksum x.metadata ++ us)
        (metadata_bytes y.checksum y.metadata ++ vs) l
        (sym (append_assoc x.path (metadata_bytes x.checksum x.metadata) us)
          ∙ rest
          ∙ append_assoc y.path (metadata_bytes y.checksum y.metadata) vs) in
    let (c, m, t) =
      metadata_bytes-injective x.checksum y.checksum x.metadata y.metadata us vs
        (omega (arith, f.checksum, g.checksum)) f.mode g.mode rest' in
    (ground (arith, p, c, m), t)

-- Lists of as many entries with the same bytes have the same contents.
pub entries_bytes-injective :
    (xs ys : List FileEntry)
    → length xs ≡ length ys
    → All Fits xs
    → All Fits ys
    → entries_bytes xs ≡ entries_bytes ys
    → map content_of xs ≡ map content_of ys
unfolding entries_bytes
entries_bytes-injective [] [] l f g e = refl
entries_bytes-injective [] (y ∷ ys) l f g e = absurd (omega arith)
entries_bytes-injective (x ∷ xs) [] l f g e = absurd (omega arith)
entries_bytes-injective (x ∷ xs) (y ∷ ys) l (f, fs) (g, gs) e =
    let (c, rest) = entry_bytes-injective x y (entries_bytes xs) (entries_bytes ys) f g e in
    let ih = entries_bytes-injective xs ys (omega arith) fs gs rest in cc

-- The bytes depend on the contents alone.
pub entries_bytes-content_of :
    (xs ys : List FileEntry)
    → map content_of xs ≡ map content_of ys
    → entries_bytes xs ≡ entries_bytes ys
unfolding entries_bytes entry_bytes
entries_bytes-content_of [] [] e = refl
entries_bytes-content_of [] (y ∷ ys) e = cc
entries_bytes-content_of (x ∷ xs) [] e = cc
entries_bytes-content_of (x ∷ xs) (y ∷ ys) e =
    let first : content_of x ≡ content_of y = cc in
    let ih = entries_bytes-content_of xs ys cc in
    let p : x.path ≡ y.path = ap (λ (c : Content). c.path) first in
    let q : x.checksum ≡ y.checksum = ap (λ (c : Content). c.checksum) first in
    let m : x.metadata ≡ y.metadata = ap (λ (c : Content). c.metadata) first in
    rw (p, q, m, ih) refl
