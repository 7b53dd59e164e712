-- ===== src/LegacyPath.antt =====
-- legacy_path.rs: the path encoding of index versions 1 and 2, and the pool that packidx.rs makes
-- of it.
pub mod Pool
use elfshaker.Prelude.{
  ℕ, ◌≡◌, ◌↔◌, ap, arith, ==_refl, list_beq_iff, Eq, ◌==◌, Bool, true, false, ◌&&◌, ◌||◌, Option,
  none, some, List, [], ◌∷◌, map, ltb, leb, eqb, if◌then◌else◌, Result, ok, err, and_then, map_err,
  list_eq, nat_eq,
}
use elfshaker.EntryPool
use elfshaker.EntryPool.{EntryPool}
use elfshaker.PackPath
use elfshaker.PackPath.{PackPathError, absolute}

pub data LegacyPathError : Type 0 where
  unsupported_windows_utf16 : List ℕ → LegacyPathError
  invalid_logical_path : PackPathError → LegacyPathError

pub data LegacyWirePath : Type 0 where
  unix : List ℕ → LegacyWirePath
  windows : List ℕ → LegacyWirePath

abbrev pub wire_path_beq : LegacyWirePath → LegacyWirePath → Bool
wire_path_beq (unix a) (unix b) = a == b
wire_path_beq (windows a) (windows b) = a == b
wire_path_beq _ _ = false

wire_path_beq→eq : (v w : LegacyWirePath) → wire_path_beq v w ≡ true → v ≡ w
wire_path_beq→eq (unix a) (unix b) h = ap unix ((list_beq_iff a b).0 h)
wire_path_beq→eq (unix a) (windows b) h = cc
wire_path_beq→eq (windows a) (unix b) h = cc
wire_path_beq→eq (windows a) (windows b) h = ap windows ((list_beq_iff a b).0 h)

wire_path_beq_refl : (w : LegacyWirePath) → wire_path_beq w w ≡ true
wire_path_beq_refl (unix a) = ==_refl a
wire_path_beq_refl (windows a) = ==_refl a

pub wire_path_beq_iff : (v w : LegacyWirePath) → (wire_path_beq v w ≡ true) ↔ (v ≡ w)
wire_path_beq_iff v w = (wire_path_beq→eq v w, λ p. ground (arith, wire_path_beq_refl v))

instance abbrev pub wire_path_eq : Eq LegacyWirePath
wire_path_eq = record { beq = wire_path_beq; beq_iff = wire_path_beq_iff }

abbrev pub backslash : ℕ
backslash = 0x5c

abbrev pub is_ascii_alphabetic : ℕ → Bool
is_ascii_alphabetic b = leb b'A' b && leb b b'Z' || leb b'a' b && leb b b'z'

-- a drive letter and a colon
abbrev pub has_windows_prefix : List ℕ → Bool
has_windows_prefix (a ∷ b ∷ rest) = is_ascii_alphabetic a && eqb b b':'
has_windows_prefix _ = false

abbrev pub starts_at_root : List ℕ → Bool
starts_at_root [] = false
starts_at_root (b ∷ rest) = eqb b PackPath.slash || eqb b backslash

abbrev pub to_slash : ℕ → ℕ
to_slash b = if eqb b backslash then PackPath.slash else b

-- `from_utf16` is `String::from_utf16`, its text as UTF-8
module _ (from_utf16 : List ℕ → Option (List ℕ)) where
  unfoldable pub decode_windows : List ℕ → Result LegacyPathError (List ℕ)
  decode_windows units = elim (from_utf16 units) [
    | none ↦ err (unsupported_windows_utf16 units)
    | some bytes ↦
        if starts_at_root bytes || has_windows_prefix bytes
        then err (invalid_logical_path absolute)
        else ok (map to_slash bytes)
  ]

  unfoldable pub decode : LegacyWirePath → Result LegacyPathError (List ℕ)
  unfolding decode_windows
  decode (unix bytes) = map_err invalid_logical_path (PackPath.new bytes)
  decode (windows units) =
      and_then (decode_windows units) (λ bytes. map_err invalid_logical_path (PackPath.new bytes))

  -- the loop of `from_legacy` over the path pool
  pub intern_paths :
      EntryPool (List ℕ) → List LegacyWirePath → Result LegacyPathError (EntryPool (List ℕ))
  intern_paths pool [] = ok pool
  intern_paths pool (w ∷ ws) =
      and_then (decode w) (λ path. intern_paths (EntryPool.get_or_insert pool path).0 ws)
