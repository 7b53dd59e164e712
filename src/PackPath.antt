-- ===== src/PackPath.antt =====
-- packpath.rs: canonical paths, by their bytes. The platform is Unix.
pub mod Split
pub mod Canonical
pub mod Native
use elfshaker.Prelude.{
  ℕ, Bool, true, false, ◌||◌, Option, none, some, List, [], ◌∷◌, ◌++◌, contains, map, nat_eq,
  list_eq, eqb, if◌then◌else◌, Eq, ◌==◌, Result, ok, err,
}

-- '/', '.'
abbrev pub slash : ℕ
slash = 0x2f

abbrev pub dot : ℕ
dot = 0x2e

pub data PackPathError : Type 0 where
  empty absolute empty_component current_directory parent_directory nul native_prefix :
      PackPathError
  unrepresentable_component : List ℕ → PackPathError

abbrev pub cons_first : ℕ → List (List ℕ) → List (List ℕ)
cons_first b [] = (b ∷ []) ∷ []
cons_first b (c ∷ cs) = (b ∷ c) ∷ cs

-- `split(|byte| *byte == b'/')`: at least one component
unfoldable pub split : List ℕ → List (List ℕ)
split [] = [] ∷ []
split (b ∷ bs) = if eqb b slash then [] ∷ split bs else cons_first b (split bs)

abbrev pub components : List ℕ → List (List ℕ)
components = split

unfoldable pub check_component : List ℕ → Option PackPathError
check_component component =
    if component == []
    then some empty_component
    else if component == (dot ∷ [])
    then some current_directory
    else if component == (dot ∷ dot ∷ [])
    then some parent_directory
    else none

unfoldable pub check_components : List (List ℕ) → Option PackPathError
unfolding check_component
check_components [] = none
check_components (c ∷ cs) =
    let rest = check_components cs in elim (check_component c) [ some e ↦ some e | none ↦ rest ]

unfoldable pub validate : List ℕ → Option PackPathError
unfolding split check_components
validate [] = some empty
validate (b ∷ bs) =
    if eqb b slash
    then some absolute
    else if contains (b ∷ bs) 0
    then some nul
    else check_components (split (b ∷ bs))

-- `PackPath::new`
unfoldable pub new : List ℕ → Result PackPathError (List ℕ)
unfolding validate
new bytes = elim (validate bytes) [ some e ↦ err e | none ↦ ok bytes ]

-- `std::path::Component`
pub data Component : Type 0 where
  normal : List ℕ → Component
  cur_dir parent_dir root_dir prefix : Component

-- `if !bytes.is_empty() { bytes.push(b'/'); }`
abbrev pub separate : List ℕ → List ℕ
separate [] = []
separate (b ∷ bs) = (b ∷ bs) ++ slash ∷ []

-- the loop of `from_native`
unfoldable pub append_components : List ℕ → List Component → Result PackPathError (List ℕ)
append_components bytes [] = ok bytes
append_components bytes (normal c ∷ cs) = append_components (separate bytes ++ c) cs
append_components bytes (cur_dir ∷ cs) = err current_directory
append_components bytes (parent_dir ∷ cs) = err parent_directory
append_components bytes (root_dir ∷ cs) = err native_prefix
append_components bytes (prefix ∷ cs) = err native_prefix

unfoldable pub from_native : List Component → Result PackPathError (List ℕ)
unfolding append_components new
from_native path = elim (append_components [] path) [ err e ↦ err e | ok bytes ↦ new bytes ]

-- The components of the `PathBuf` that `to_native` pushes together, each of them `Normal`.
pub to_native : List ℕ → List Component
to_native path = map normal (components path)
