-- ===== src/Repo/Symlink.antt =====
-- The targets of symbolic links, repo/symlink.rs, on Unix: a path is its bytes.
pub mod Targets
use elfshaker.Prelude.{
  ℕ, Bool, true, false, not, ◌&&◌, ◌||◌, Option, none, some, List, [], ◌∷◌, eqb, leb, contains,
  if◌then◌else◌, Result, ok, err, and_then, Eq, ◌==◌, list_eq, nat_eq,
}
use elfshaker.PackPath.{slash}
use elfshaker.PackIndex.Types.{
  ObjectChecksum, SymlinkTargetEncoding, portable_utf8, unix_bytes, windows_utf16_le,
}

abbrev pub FilePath : Type 0
FilePath = List ℕ

-- the errors of `PackError` that these operations return, without the path of the entry
pub data Error : Type 0 where
  invalid_utf8 not_portable invalid_portable absolute nul : Error
  unsupported_symlink_target_encoding : SymlinkTargetEncoding → Error
  checksum_mismatch : ObjectChecksum → ObjectChecksum → Error
  io : ℕ → Error

abbrev pub backslash : ℕ
backslash = 0x5c

abbrev pub is_ascii_alphabetic : ℕ → Bool
is_ascii_alphabetic c = leb b'A' c && leb c b'Z' || leb b'a' c && leb c b'z'

-- `windows_prefix` of both functions
abbrev pub windows_prefix : List ℕ → Bool
windows_prefix (a ∷ b ∷ bytes) = is_ascii_alphabetic a && eqb b b':'
windows_prefix _ = false

-- `starts_with('/')`; on Unix also `is_absolute`
abbrev pub is_absolute : FilePath → Bool
is_absolute [] = false
is_absolute (c ∷ cs) = eqb c slash

-- over what `str::from_utf8` accepts
module _ (is_utf8 : List ℕ → Bool) where
  unfoldable pub portable_native_target : FilePath → Option (List ℕ)
  portable_native_target target =
      if not (is_utf8 target)
      then none
      else if target == [] || is_absolute target
      then none
      else if contains target backslash
      then none
      else if is_absolute target || windows_prefix target
      then none
      else some target

  -- `encode_native_target` is the last case; neither can fail on Unix
  unfoldable pub encode_target : FilePath → List ℕ × SymlinkTargetEncoding
  encode_target target = elim (portable_native_target target) [
    | some portable ↦ (portable, portable_utf8)
    | none ↦ (target, unix_bytes)
  ]

  unfoldable pub encode_target_as : FilePath → SymlinkTargetEncoding → Result Error (List ℕ)
  encode_target_as target portable_utf8 = elim (portable_native_target target) [
    | some bytes ↦ ok bytes
    | none ↦ err not_portable
  ]
  encode_target_as target unix_bytes = ok target
  encode_target_as target windows_utf16_le =
      err (unsupported_symlink_target_encoding windows_utf16_le)

  unfoldable pub decode_portable_target : List ℕ → Result Error FilePath
  decode_portable_target bytes =
      if not (is_utf8 bytes)
      then err invalid_utf8
      else if bytes == [] || contains bytes 0 || contains bytes backslash
      then err invalid_portable
      else if is_absolute bytes || is_absolute bytes || windows_prefix bytes
      then err absolute
      else ok bytes

  unfoldable pub decode_unix_target : List ℕ → Result Error FilePath
  decode_unix_target bytes = if contains bytes 0 then err nul else ok bytes

  unfoldable pub decode_target : List ℕ → SymlinkTargetEncoding → Result Error FilePath
  decode_target bytes portable_utf8 = decode_portable_target bytes
  decode_target bytes unix_bytes = decode_unix_target bytes
  decode_target bytes windows_utf16_le = err (unsupported_symlink_target_encoding windows_utf16_le)

  -- `none` is `Ok(())`; the link has the target that `fs::read_link` gives, and `sha1` is the digest
  unfoldable pub verify_materialized :
      (List ℕ → ObjectChecksum)
      → Result Error FilePath
      → SymlinkTargetEncoding
      → ObjectChecksum
      → Result Error (Unit {0})
  verify_materialized sha1 read_link encoding expected = and_then read_link λ target.
      and_then (encode_target_as target encoding) λ bytes.
        (if sha1 bytes == expected then ok tt else err (checksum_mismatch expected (sha1 bytes)))
