-- ===== src/Runs/Paths.antt =====
-- Runs of packpath.rs, of legacy_path.rs, of the identifiers and of the path policy.
use elfshaker.Prelude.{
  ◌<◌, suc, get_elem?, ℕ, ◌≡◌, ◌↔◌, refl, Bool, true, Option, none, some, List, [], ◌∷◌, ok, leb,
  map, if◌then◌else◌, ◌+◌, ◌&&◌, nat_eq, list_eq,
}
use elfshaker.EntryPool
use elfshaker.EntryPool.{EntryPool, Handle}
use elfshaker.PackPath
use elfshaker.PackPath.{Component, normal, from_native, to_native, slash, dot}
use elfshaker.PackPath.Canonical.{IsCanonical, validate-IsCanonical}
use elfshaker.PackPath.Native.{to_native-from_native}
use elfshaker.LegacyPath
use elfshaker.LegacyPath.{LegacyWirePath, intern_paths, decode}
use elfshaker.LegacyPath.Pool.{intern_paths_shifts}
use elfshaker.Repo.Id
use elfshaker.Repo.Id.{
  PackId, pack, SnapshotId, print, from_str, from_index_path, dot_pack_index_extension,
  loose_prefix, for_loose_snapshot,
}
use elfshaker.Repo.Id.Parse.{from_str-print, print-from_str}
use elfshaker.Repo.Id.Safety.{validate-IsCanonical_name}
use elfshaker.Repo.Policy.{Unicode, windows, preflight_path_policy}
use elfshaker.Repo.Policy.Accepts.{Holdable, preflight_path_policy-Holdable}

-- "src/a"
abbrev src_a : List ℕ
src_a = b's' ∷ b'r' ∷ b'c' ∷ slash ∷ b'a' ∷ []

abbrev src_a_native : List Component
src_a_native = normal (b's' ∷ b'r' ∷ b'c' ∷ []) ∷ normal (b'a' ∷ []) ∷ []

validate-IsCanonical_example : (PackPath.validate src_a ≡ none) ↔ IsCanonical src_a
validate-IsCanonical_example = validate-IsCanonical src_a

src_a_valid : PackPath.validate src_a ≡ none
unfolding PackPath.validate PackPath.split PackPath.check_components PackPath.check_component
src_a_valid = refl

src_a_converts : from_native src_a_native ≡ ok src_a
unfolding from_native PackPath.append_components PackPath.new PackPath.validate PackPath.split
    PackPath.check_components PackPath.check_component
src_a_converts = refl

to_native-from_native_example : (to_native src_a ≡ src_a_native) × IsCanonical src_a
to_native-from_native_example =
    to_native-from_native src_a_native src_a (refl, λ e. cc, (refl, λ e. cc, tt)) src_a_converts

-- text in the Basic Latin block
abbrev latin : List ℕ → Option (List ℕ)
latin units = some units

-- "a\b", "a/b", "c"
abbrev a_backslash_b : LegacyWirePath
a_backslash_b = LegacyWirePath.windows (b'a' ∷ 0x5c ∷ b'b' ∷ [])

abbrev a_slash_b : LegacyWirePath
a_slash_b = LegacyWirePath.windows (b'a' ∷ slash ∷ b'b' ∷ [])

abbrev only_c : LegacyWirePath
only_c = LegacyWirePath.unix (b'c' ∷ [])

decodes_backslash : decode latin a_backslash_b ≡ ok (b'a' ∷ slash ∷ b'b' ∷ [])
unfolding decode LegacyPath.decode_windows PackPath.new PackPath.validate PackPath.split
    PackPath.check_components PackPath.check_component
decodes_backslash = refl

decodes_slash : decode latin a_slash_b ≡ ok (b'a' ∷ slash ∷ b'b' ∷ [])
unfolding decode LegacyPath.decode_windows PackPath.new PackPath.validate PackPath.split
    PackPath.check_components PackPath.check_component
decodes_slash = refl

decodes_c : decode latin only_c ≡ ok (b'c' ∷ [])
unfolding decode PackPath.new PackPath.validate PackPath.split PackPath.check_components
    PackPath.check_component
decodes_c = refl

abbrev a_b : List ℕ
a_b = b'a' ∷ slash ∷ b'b' ∷ []

intern_paths_shifts_example :
    (pool : EntryPool (List ℕ)) × (intern_paths latin EntryPool.new
        (a_backslash_b ∷ a_slash_b ∷ only_c ∷ [])
      ≡ ok pool)
    × ((h : ℕ) → h < 1 → EntryPool.lookup pool h ≡ get_elem? (a_b ∷ a_b ∷ (b'c' ∷ []) ∷ []) h)
    × ((i : ℕ)
        → EntryPool.lookup pool (1 + i) ≡ get_elem? (a_b ∷ a_b ∷ (b'c' ∷ []) ∷ []) (1 + suc i))
intern_paths_shifts_example =
    intern_paths_shifts latin (a_backslash_b ∷ a_slash_b ∷ only_c ∷ []) (a_b ∷ []) a_b
      ((b'c' ∷ []) ∷ []) (decodes_backslash, (decodes_slash, (decodes_c, tt))) refl
      (refl, (refl, tt))

-- the printable characters of ASCII
abbrev printable : ℕ → Bool
printable c = leb 0x21 c && leb c 0x7e

-- "v1"
abbrev v1_name : List ℕ
v1_name = b'v' ∷ b'1' ∷ []

abbrev v1_2 : SnapshotId
v1_2 = record { pack = pack v1_name; tag = b'v' ∷ b'1' ∷ dot ∷ b'2' ∷ [] }

v1_validates : Id.validate printable (pack v1_name) ≡ none
unfolding Id.validate Id.is_valid_regular PackPath.split
v1_validates = refl

v1_2_tag : Id.is_valid printable v1_2.tag ≡ true
unfolding Id.is_valid Id.valid_components Id.is_bad_component Id.is_tag_char
    Id.is_windows_device_name Id.is_device Id.strip_suffix PackPath.split
v1_2_tag = refl

from_str-print_example : from_str printable (print v1_2) ≡ ok v1_2
from_str-print_example = from_str-print printable v1_2 v1_validates v1_2_tag

-- "v1:v1.2"
abbrev v1_2_text : List ℕ
v1_2_text = b'v' ∷ b'1' ∷ b':' ∷ b'v' ∷ b'1' ∷ dot ∷ b'2' ∷ []

v1_2_parses : from_str printable v1_2_text ≡ ok v1_2
unfolding from_str Id.rsplit_once_colon Id.pack_from_str Id.new Id.validate Id.is_valid_regular
    Id.is_valid Id.valid_components Id.is_bad_component Id.is_tag_char Id.is_windows_device_name
    Id.is_device Id.strip_suffix PackPath.split
v1_2_parses = refl

print-from_str_example :
    (print v1_2 ≡ v1_2_text)
    × (Id.validate printable v1_2.pack ≡ none)
    × (Id.is_valid printable v1_2.tag ≡ true)
print-from_str_example = print-from_str printable v1_2_text v1_2 v1_2_parses

validate-IsCanonical_name_example : IsCanonical v1_name
validate-IsCanonical_name_example = validate-IsCanonical_name printable v1_name refl v1_validates

abbrev lower : ℕ → ℕ
lower c = if leb b'A' c && leb c b'Z' then c + 32 else c

-- the Unicode operations on the Basic Latin block
abbrev basic_latin : Unicode
basic_latin = record { from_utf8 = latin; lowercase = map lower; nfd_lowercase = map lower }

preflight_path_policy-Holdable_example :
    (preflight_path_policy basic_latin (src_a ∷ v1_name ∷ []) windows ≡ none)
    ↔ Holdable basic_latin windows (src_a ∷ v1_name ∷ [])
preflight_path_policy-Holdable_example =
    preflight_path_policy-Holdable basic_latin windows (src_a ∷ v1_name ∷ [])
