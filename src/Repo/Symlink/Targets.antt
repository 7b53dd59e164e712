-- ===== src/Repo/Symlink/Targets.antt =====
-- repo/symlink.rs: the target of a link that is stored is the target of the link that is made.
use elfshaker.Prelude.{
  ℕ, ◌≡◌, ◌↔◌, refl, arith, Bool, true, false, not, ◌&&◌, none, some, List, [], contains,
  Bool-cases, ok, if◌then◌else◌, ◌==◌, list_eq, nat_eq, list_beq_iff, inl, inr,
}
use elfshaker.PackIndex.Types.{
  ObjectChecksum, SymlinkTargetEncoding, portable_utf8, unix_bytes, windows_utf16_le,
}
use elfshaker.Repo.Symlink.{
  FilePath, is_absolute, backslash, windows_prefix, portable_native_target, encode_target,
  encode_target_as, decode_portable_target, decode_unix_target, decode_target, verify_materialized,
}

module _ (is_utf8 : List ℕ → Bool) where
  abbrev is_portable : List ℕ → Bool
  is_portable t =
      is_utf8 t
      && not (t == [])
      && not (is_absolute t)
      && not (contains t backslash)
      && not (windows_prefix t)

  portable_native_target_lem :
      (t : FilePath) → portable_native_target is_utf8 t ≡ (if is_portable t then some t else none)
  unfolding portable_native_target
  portable_native_target_lem t = ground arith

  decode_portable_target-is_portable :
      (bytes target : List ℕ)
      → decode_portable_target is_utf8 bytes ≡ ok target
      → (bytes ≡ target) × (is_portable bytes ≡ true)
  unfolding decode_portable_target
  decode_portable_target-is_portable bytes target h = (ground arith, ground arith)

  decode_portable_target_lem :
      (bytes : List ℕ)
      → is_portable bytes ≡ true
      → contains bytes 0 ≡ false
      → decode_portable_target is_utf8 bytes ≡ ok bytes
  unfolding decode_portable_target
  decode_portable_target_lem bytes h k = ground arith

  -- A target without NUL that is encoded is decoded to itself, whichever encoding was chosen.
  pub decode_target-encode_target :
      (target : FilePath)
      → contains target 0 ≡ false
      → decode_target is_utf8 (encode_target is_utf8 target).0 (encode_target is_utf8 target).1
        ≡ ok target
  unfolding decode_target encode_target decode_unix_target
  decode_target-encode_target target k = elim (Bool-cases (is_portable target)) [
    | inl portable ↦
        let p : portable_native_target is_utf8 target ≡ some target =
          rw portable at (portable_native_target_lem target) in
        rw (p, encode_target) (decode_portable_target_lem target portable k)
    | inr native ↦
        let p : portable_native_target is_utf8 target ≡ none =
          rw native at (portable_native_target_lem target) in
        rw (p, encode_target, k, decode_unix_target) refl
  ]

  encode_target_as-decode_target :
      (bytes target : List ℕ) (encoding : SymlinkTargetEncoding)
      → decode_target is_utf8 bytes encoding ≡ ok target
      → encode_target_as is_utf8 target encoding ≡ ok bytes
  unfolding decode_target encode_target_as decode_unix_target
  encode_target_as-decode_target bytes target portable_utf8 h =
      let (same, portable) = decode_portable_target-is_portable bytes target h in
      let p : portable_native_target is_utf8 bytes ≡ some bytes =
        rw portable at (portable_native_target_lem bytes) in
      rw (← same) (rw (p, encode_target_as) refl)
  encode_target_as-decode_target bytes target unix_bytes h = ground arith
  encode_target_as-decode_target bytes target windows_utf16_le h = cc

  -- A link whose target is the decoded one passes the verification exactly where the bytes that
  -- were stored have the expected checksum.
  pub verify_materialized-decode_target :
      (sha1 : List ℕ → ObjectChecksum) (bytes target : List ℕ) (encoding : SymlinkTargetEncoding)
      (expected : ObjectChecksum)
      → decode_target is_utf8 bytes encoding ≡ ok target
      → (verify_materialized is_utf8 sha1 (ok target) encoding expected ≡ ok tt)
        ↔ (sha1 bytes ≡ expected)
  unfolding verify_materialized
  verify_materialized-decode_target sha1 bytes target encoding expected h =
      rw (encode_target_as-decode_target bytes target encoding h)
        (ground (arith, list_beq_iff (sha1 bytes) expected))
