-- ===== src/Repo/Id.antt =====
-- `PackId` and `SnapshotId` of repo/pack.rs. A string is the list of its code points.
pub mod Valid
pub mod Parse
pub mod Safety
use elfshaker.Prelude.{
  ℕ, ◌+◌, ◌-◌, Bool, true, false, not, ◌&&◌, ◌||◌, Option, none, some, List, [], ◌∷◌, ◌++◌, map,
  length, ltb, leb, eqb, if◌then◌else◌, Result, ok, err, and_then, map_err, contains, Eq, ◌==◌,
  list_eq, nat_eq,
}
use elfshaker.PackPath.{slash, dot, split}

abbrev pub Str : Type 0
Str = List ℕ

pub data IdError : Type 0 where
  bad_format invalid_pack invalid_snapshot : Str → IdError

pub data PackId : Type 0 where
  pack : Str → PackId

pub record SnapshotId : Type 0 where
  pub pack : PackId
  pub tag : Str

abbrev pub colon : ℕ
colon = b':'

abbrev pub loose_prefix : Str
loose_prefix = b'l' ∷ b'o' ∷ b'o' ∷ b's' ∷ b'e' ∷ slash ∷ []

-- DOT_PACK_INDEX_EXTENSION
abbrev pub dot_pack_index_extension : Str
dot_pack_index_extension = dot ∷ b'p' ∷ b'a' ∷ b'c' ∷ b'k' ∷ dot ∷ b'i' ∷ b'd' ∷ b'x' ∷ []

abbrev pub strip_prefix : Str → Str → Option Str
strip_prefix [] s = some s
strip_prefix (p ∷ ps) [] = none
strip_prefix (p ∷ ps) (c ∷ s) = let rest = strip_prefix ps s in if eqb p c then rest else none

-- `strip_suffix`
unfoldable pub strip_suffix : Str → Str → Option Str
strip_suffix suffix [] = if suffix == [] then some [] else none
strip_suffix suffix (c ∷ s) =
    let rest = strip_suffix suffix s in
    if suffix == (c ∷ s) then some [] else elim rest [ none ↦ none | some front ↦ some (c ∷ front) ]

abbrev pub is_some {ℓ} : {A : Type ℓ} → Option A → Bool
is_some none = false
is_some (some a) = true

unfoldable pub from_index_path : Str → Option PackId
unfolding strip_suffix
from_index_path index_path = elim (strip_suffix dot_pack_index_extension index_path) [
  | none ↦ none
  | some name ↦ some (pack name)
]

abbrev pub is_ascii_alphanumeric : ℕ → Bool
is_ascii_alphanumeric c =
    leb b'0' c && leb c b'9' || (leb b'A' c && leb c b'Z' || leb b'a' c && leb c b'z')

abbrev pub all_of : (ℕ → Bool) → Str → Bool
all_of test [] = true
all_of test (c ∷ cs) = test c && all_of test cs

-- PACK_EXTRA_ID_CHARS
abbrev pub pack_extra_id_chars : Str
pack_extra_id_chars = b'-' ∷ b'_' ∷ slash ∷ []

abbrev pub is_pack_char : ℕ → Bool
is_pack_char c = is_ascii_alphanumeric c || contains pack_extra_id_chars c

abbrev pub all_components : List Str → Bool
all_components [] = true
all_components (c ∷ cs) = not (c == []) && all_of is_pack_char c && all_components cs

unfoldable pub is_valid_regular : Str → Bool
is_valid_regular s =
    not (s == []) && not (is_some (strip_prefix loose_prefix s)) && all_components (split s)

-- FORBIDDEN_SNAPSHOT_CHARS
abbrev pub forbidden_snapshot_chars : Str
forbidden_snapshot_chars = colon ∷ 0x5c ∷ b'<' ∷ b'>' ∷ 0x22 ∷ b'|' ∷ b'?' ∷ b'*' ∷ []

abbrev pub to_ascii_lowercase : ℕ → ℕ
to_ascii_lowercase c = if leb b'A' c && leb c b'Z' then c + 32 else c

abbrev pub to_ascii_uppercase : ℕ → ℕ
to_ascii_uppercase c = if leb b'a' c && leb c b'z' then c - 32 else c

-- `split_once('.')`, the first half or the whole
abbrev pub stem : Str → Str
stem [] = []
stem (c ∷ cs) = let rest = stem cs in if eqb c dot then [] else c ∷ rest

unfoldable pub is_device : Str → Bool
is_device (a ∷ b ∷ c ∷ []) =
    contains
      ((b'C' ∷ b'O' ∷ b'N' ∷ [])
        ∷ (b'P' ∷ b'R' ∷ b'N' ∷ [])
        ∷ (b'A' ∷ b'U' ∷ b'X' ∷ [])
        ∷ (b'N' ∷ b'U' ∷ b'L' ∷ [])
        ∷ [])
      (a ∷ b ∷ c ∷ [])
is_device (a ∷ b ∷ c ∷ d ∷ []) =
    contains ((b'C' ∷ b'O' ∷ b'M' ∷ []) ∷ (b'L' ∷ b'P' ∷ b'T' ∷ []) ∷ []) (a ∷ b ∷ c ∷ [])
    && leb b'1' d
    && leb d b'9'
is_device _ = false

unfoldable pub is_windows_device_name : Str → Bool
unfolding is_device
is_windows_device_name component = is_device (map to_ascii_uppercase (stem component))

abbrev pub starts_with_space : Str → Bool
starts_with_space [] = false
starts_with_space (c ∷ cs) = eqb c b' '

-- `ends_with([' ', '.'])`
abbrev pub ends_with_space_or_dot : Str → Bool
ends_with_space_or_dot [] = false
ends_with_space_or_dot (c ∷ []) = eqb c b' ' || eqb c dot
ends_with_space_or_dot (c ∷ d ∷ cs) = ends_with_space_or_dot (d ∷ cs)

-- `rsplit_once(':')`
unfoldable pub rsplit_once_colon : Str → Option (Str × Str)
rsplit_once_colon [] = none
rsplit_once_colon (c ∷ s) = elim (rsplit_once_colon s) [
  | some (front, back) ↦ some (c ∷ front, back)
  | none ↦ if eqb c colon then some ([], s) else none
]

-- `is_graphic` tells of a character whether its general category is in L, M, N, P or S.
module _ (is_graphic : ℕ → Bool) where
  unfoldable pub is_tag_char : ℕ → Bool
  is_tag_char c = eqb c b' ' || not (contains forbidden_snapshot_chars c) && is_graphic c

  unfoldable pub is_bad_component : Bool → Str → Bool
  unfolding strip_suffix is_windows_device_name
  is_bad_component is_final c =
      c == []
      || c == (dot ∷ [])
      || c == (dot ∷ dot ∷ [])
      || starts_with_space c
      || ends_with_space_or_dot c
      || not is_final && is_some (strip_suffix dot_pack_index_extension (map to_ascii_lowercase c))
      || contains c dot && is_windows_device_name c

  -- the `while` over the components
  unfoldable pub valid_components : List Str → Bool
  unfolding is_tag_char is_bad_component
  valid_components [] = true
  valid_components (c ∷ cs) =
      let rest = valid_components cs in
      if is_bad_component (cs == []) c then false else if all_of is_tag_char c then rest else false

  unfoldable pub is_valid : Str → Bool
  unfolding valid_components
  is_valid [] = false
  is_valid (c ∷ cs) = valid_components (split (c ∷ cs))

  unfoldable pub for_loose_snapshot : Str → Result IdError PackId
  unfolding is_valid
  for_loose_snapshot tag =
      if is_valid tag then ok (pack (loose_prefix ++ tag)) else err (invalid_snapshot tag)

  -- `none` is `Ok(())`
  unfoldable pub validate : PackId → Option IdError
  unfolding is_valid is_valid_regular
  validate (pack name) = elim (strip_prefix loose_prefix name) [
    | some tag ↦ if is_valid tag then none else some (invalid_snapshot tag)
    | none ↦ if is_valid_regular name then none else some (invalid_pack name)
  ]

  unfoldable pub pack_from_str : Str → Result IdError PackId
  unfolding validate
  pack_from_str s = elim (validate (pack s)) [ none ↦ ok (pack s) | some e ↦ err e ]

  unfoldable pub new : PackId → Str → Result IdError SnapshotId
  unfolding is_valid
  new p tag =
      if is_valid tag then ok (record { pack = p; tag = tag }) else err (invalid_snapshot tag)

  unfoldable pub from_str : Str → Result IdError SnapshotId
  unfolding rsplit_once_colon pack_from_str new
  from_str s = elim (rsplit_once_colon s) [
    | none ↦ err (bad_format s)
    | some (p, snapshot) ↦
        if p == [] then err (invalid_pack p) else and_then (pack_from_str p) λ q. new q snapshot
  ]

abbrev pub name_of : PackId → Str
name_of (pack name) = name

-- `Display`
pub print : SnapshotId → Str
print id = name_of id.pack ++ colon ∷ id.tag
