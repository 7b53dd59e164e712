-- ===== src/Repo/Pack/Skippable.antt =====
-- The skippable frame of repo/pack.rs that holds the header of a pack.
use elfshaker.Prelude.{
  ℕ, ◌+◌, ◌*◌, ◌/◌, ◌%◌, ◌<◌, ◌≡◌, refl, ap, arith, Bool, false, List, [], ◌∷◌, ◌++◌, length, take,
  drop, ltb, eqb, if◌then◌else◌, Result, ok, err, and_then, length-append, take-length_append,
  drop-length_append, bit_and,
}
use elfshaker.Algo.{u32_mod}

-- `UnexpectedEof` and `InvalidData`
pub data IoError : Type 0 where
  unexpected_eof invalid_data : IoError

abbrev pub skippable_magic_mask : ℕ
skippable_magic_mask = 0x184D2A50

abbrev pub u32_to_le_bytes : ℕ → List ℕ
u32_to_le_bytes n = (n % 256) ∷ (n / 256 % 256) ∷ (n / 65536 % 256) ∷ (n / 16777216 % 256) ∷ []

abbrev pub u32_from_le_bytes : List ℕ → ℕ
u32_from_le_bytes [] = 0
u32_from_le_bytes (b ∷ bs) = b + 256 * u32_from_le_bytes bs

-- what was read, and the bytes that follow
abbrev pub Read {ℓ} : Type ℓ → Type ℓ
Read A = Result IoError (A × List ℕ)

pub read_bytes : ℕ → List ℕ → Read (List ℕ)
read_bytes n bytes =
    if ltb (length bytes) n then err unexpected_eof else ok (take n bytes, drop n bytes)

pub read_u32_le : List ℕ → Read ℕ
unfolding read_bytes
read_u32_le bytes = and_then (read_bytes 4 bytes) λ got. ok (u32_from_le_bytes got.0, got.1)

abbrev pub is_skippable : ℕ → Bool
is_skippable magic = eqb (bit_and magic skippable_magic_mask) skippable_magic_mask

-- the size that is returned, and the bytes of the buffer
pub read_skippable_frame : List ℕ → Read (ℕ × List ℕ)
unfolding read_u32_le
read_skippable_frame bytes = and_then (read_u32_le bytes) λ magic.
    let rest = and_then (read_u32_le magic.1) λ frame_size.
      and_then (read_bytes frame_size.0 frame_size.1)
        λ buf. ok ((4 * 2 + length buf.0, buf.0), buf.1) in
    if is_skippable magic.0 then rest else err invalid_data

-- the bytes that are written, and the size that is returned; `buf.len() as u32` keeps 32 bits
pub write_skippable_frame : List ℕ → List ℕ × ℕ
write_skippable_frame buf = (
  u32_to_le_bytes skippable_magic_mask ++ u32_to_le_bytes (length buf % u32_mod) ++ buf,
  4 * 2 + length buf,
)

u32_from_le_bytes-u32_to_le_bytes :
    (n : ℕ) → n < u32_mod → u32_from_le_bytes (u32_to_le_bytes n) ≡ n
u32_from_le_bytes-u32_to_le_bytes n h = omega arith

read_u32_le-u32_to_le_bytes :
    (n : ℕ) (rest : List ℕ) → n < u32_mod → read_u32_le (u32_to_le_bytes n ++ rest) ≡ ok (n, rest)
unfolding read_u32_le read_bytes
read_u32_le-u32_to_le_bytes n rest h =
    let long : ltb (length (u32_to_le_bytes n ++ rest)) 4 ≡ false = ground arith in
    rw long (ap (λ k. ok (k, rest)) (u32_from_le_bytes-u32_to_le_bytes n h))

read_bytes-length : (buf rest : List ℕ) → read_bytes (length buf) (buf ++ rest) ≡ ok (buf, rest)
unfolding read_bytes
read_bytes-length buf rest =
    let long : ltb (length (buf ++ rest)) (length buf) ≡ false =
      ground (arith, length-append buf rest) in
    rw (long, take-length_append buf rest, drop-length_append buf rest) refl

-- A frame of fewer than 2^32 bytes is read back as it was written, with the same size returned
-- by both, and the bytes behind the frame are left in the reader.
pub read_skippable_frame-write_skippable_frame :
    (buf rest : List ℕ)
    → length buf < u32_mod
    → read_skippable_frame ((write_skippable_frame buf).0 ++ rest)
      ≡ ok (((write_skippable_frame buf).1, buf), rest)
unfolding read_skippable_frame write_skippable_frame
read_skippable_frame-write_skippable_frame buf rest h =
    let low : length buf % u32_mod ≡ length buf = omega arith in
    rw
      (
        read_u32_le-u32_to_le_bytes skippable_magic_mask
            (u32_to_le_bytes (length buf % u32_mod) ++ buf ++ rest) (omega arith),
        low,
        read_u32_le-u32_to_le_bytes (length buf) (buf ++ rest) h,
        read_bytes-length buf rest,
      )
      refl
