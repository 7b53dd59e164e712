-- ===== src/Repo/Policy.antt =====
-- `preflight_path_policy` of repo/repository.rs: which path sets a platform can hold.
pub mod Prefixes
pub mod Accepts
use elfshaker.Prelude.{
  ℕ, ◌-◌, ◌≤◌, ◌<◌, Bool, true, false, not, ◌&&◌, ◌||◌, Option, none, some, List, [], ◌∷◌, ◌++◌,
  map, length, ltb, leb, eqb, if◌then◌else◌, Result, ok, err, and_then, contains, Eq, ◌==◌, list_eq,
  nat_eq, lex, sort,
}
use elfshaker.PackPath.{components, dot}

pub data TargetPlatform : Type 0 where
  unix windows mac_os : TargetPlatform

abbrev pub PathBytes : Type 0
PathBytes = List ℕ

-- a path as its platform tells it from others
abbrev pub Key : Type 0
Key = List (List ℕ)

-- the errors of `PackError` that the policy returns
pub data PolicyError : Type 0 where
  duplicate_logical_path : PathBytes → PolicyError
  target_path_collision : PathBytes → PathBytes → PolicyError
  path_prefix_conflict : PathBytes → PathBytes → PolicyError
  path_not_representable : PathBytes → List ℕ → PolicyError

-- the Unicode operations of the standard library and of unicode_normalization
pub record Unicode : Type 0 where
  -- `str::from_utf8`, with the text as code points
  pub from_utf8 : List ℕ → Option (List ℕ)
  -- `to_lowercase().into_bytes()`
  pub lowercase : List ℕ → List ℕ
  -- `nfd().flat_map(char::to_lowercase).collect::<String>().into_bytes()`
  pub nfd_lowercase : List ℕ → List ℕ

abbrev pub ends_with_any : List ℕ → List ℕ → Bool
ends_with_any ends [] = false
ends_with_any ends (c ∷ []) = contains ends c
ends_with_any ends (c ∷ d ∷ cs) = ends_with_any ends (d ∷ cs)

-- `split('.').next()`
abbrev pub up_to_dot : List ℕ → List ℕ
up_to_dot [] = []
up_to_dot (c ∷ cs) = let rest = up_to_dot cs in if eqb c dot then [] else c ∷ rest

abbrev pub to_ascii_uppercase : ℕ → ℕ
to_ascii_uppercase c = if leb b'a' c && leb c b'z' then c - 32 else c

-- the characters `<>:"/\|?*`
abbrev pub forbidden_chars : List ℕ
forbidden_chars = b'<' ∷ b'>' ∷ b':' ∷ 0x22 ∷ b'/' ∷ 0x5c ∷ b'|' ∷ b'?' ∷ b'*' ∷ []

abbrev pub any_forbidden : List ℕ → Bool
any_forbidden [] = false
any_forbidden (c ∷ cs) = leb c 0x1f || contains forbidden_chars c || any_forbidden cs

-- 1 to 9, and the superscripts of 1, 2 and 3
abbrev pub is_windows_device_suffix : List ℕ → Bool
is_windows_device_suffix (c ∷ []) =
    leb b'1' c && leb c b'9' || (eqb c 0xb9 || eqb c 0xb2 || eqb c 0xb3)
is_windows_device_suffix _ = false

-- "CON", "PRN", "AUX", "NUL", and "COM" and "LPT" before a suffix
pub is_reserved_stem : List ℕ → Bool
is_reserved_stem (a ∷ b ∷ c ∷ suffix) =
    let stem : List ℕ = a ∷ b ∷ c ∷ [] in
    suffix == []
      && contains
          ((b'C' ∷ b'O' ∷ b'N' ∷ [])
            ∷ (b'P' ∷ b'R' ∷ b'N' ∷ [])
            ∷ (b'A' ∷ b'U' ∷ b'X' ∷ [])
            ∷ (b'N' ∷ b'U' ∷ b'L' ∷ [])
            ∷ [])
          stem
    || contains ((b'C' ∷ b'O' ∷ b'M' ∷ []) ∷ (b'L' ∷ b'P' ∷ b'T' ∷ []) ∷ []) stem
      && is_windows_device_suffix suffix
is_reserved_stem _ = false

pub is_valid_windows_component : List ℕ → Bool
unfolding is_reserved_stem
is_valid_windows_component component = not (
    any_forbidden component
    || ends_with_any (dot ∷ b' ' ∷ []) component
    || is_reserved_stem (map to_ascii_uppercase (up_to_dot component)))

module _ (u : Unicode) where
  unfoldable pub component_key : TargetPlatform → PathBytes → List ℕ → Result PolicyError (List ℕ)
  unfolding is_valid_windows_component
  component_key unix path component = ok component
  component_key windows path component = elim (u.from_utf8 component) [
    | none ↦ err (path_not_representable path component)
    | some text ↦
        if is_valid_windows_component text
        then ok (u.lowercase text)
        else err (path_not_representable path component)
  ]
  component_key mac_os path component = elim (u.from_utf8 component) [
    | none ↦ err (path_not_representable path component)
    | some text ↦ ok (u.nfd_lowercase text)
  ]

  unfoldable pub component_keys :
      TargetPlatform → PathBytes → List (List ℕ) → Result PolicyError Key
  unfolding component_key
  component_keys platform path [] = ok []
  component_keys platform path (c ∷ cs) =
      and_then (component_key platform path c)
        λ k. and_then (component_keys platform path cs) λ ks. ok (k ∷ ks)

  unfoldable pub target_path_key : PathBytes → TargetPlatform → Result PolicyError Key
  unfolding component_keys
  target_path_key path platform = component_keys platform path (components path)

  -- the `for` over the paths; `exact` holds the paths before
  pub target_paths :
      TargetPlatform → List PathBytes → List PathBytes → Result PolicyError (List (Key × PathBytes))
  unfolding target_path_key
  target_paths platform exact [] = ok []
  target_paths platform exact (path ∷ paths) =
      let keyed = and_then (target_path_key path platform) λ key.
        and_then (target_paths platform (path ∷ exact) paths) λ rest. ok ((key, path) ∷ rest) in
      if contains exact path then err (duplicate_logical_path path) else keyed

abbrev pub starts_with : Key → Key → Bool
starts_with path [] = true
starts_with [] (p ∷ prefix) = false
starts_with (c ∷ path) (p ∷ prefix) = c == p && starts_with path prefix

pub is_component_prefix : Key → Key → Bool
is_component_prefix prefix path = ltb (length prefix) (length path) && starts_with path prefix

abbrev pub key_le : Key × PathBytes → Key × PathBytes → Bool
key_le a b = lex (lex leb) a.0 b.0

pub check_pair : Key × PathBytes → Key × PathBytes → Option PolicyError
unfolding is_component_prefix
check_pair left right =
    if left.0 == right.0
    then some (target_path_collision left.1 right.1)
    else if is_component_prefix left.0 right.0
    then some (path_prefix_conflict left.1 right.1)
    else none

-- `target_paths.windows(2)`
pub check_neighbours : List (Key × PathBytes) → Option PolicyError
unfolding check_pair
check_neighbours [] = none
check_neighbours (a ∷ []) = none
check_neighbours (a ∷ b ∷ rest) =
    let later = check_neighbours (b ∷ rest) in
    elim (check_pair a b) [ some e ↦ some e | none ↦ later ]

-- `none` is `Ok(())`
pub preflight_path_policy : Unicode → List PathBytes → TargetPlatform → Option PolicyError
unfolding target_paths check_neighbours
preflight_path_policy u paths platform = elim (target_paths u platform [] paths) [
  | err e ↦ some e
  | ok targets ↦ check_neighbours (sort key_le targets)
]
