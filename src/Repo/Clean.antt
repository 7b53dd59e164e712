-- ===== src/Repo/Clean.antt =====
-- The list of files that a snapshot is made of: `clean_file_list` and its helpers of
-- repo/repository.rs, on Unix. A path is its bytes, a normalized one its names.
pub mod Normal
pub mod Accepted
use elfshaker.Prelude.{
  ℕ, Bool, true, false, not, ◌&&◌, ◌||◌, Option, none, some, List, [], ◌∷◌, ◌++◌, eqb,
  if◌then◌else◌, Result, ok, err, and_then, Eq, ◌==◌, list_eq, nat_eq,
}
use elfshaker.HashSet
use elfshaker.PackPath.{slash, dot, split, Component, normal, cur_dir, parent_dir, root_dir, prefix}

abbrev pub Str : Type 0
Str = List ℕ

-- the names of a normalized path
abbrev pub Names : Type 0
Names = List Str

pub data Error : Type 0 where
  escapes_repository not_relative no_file_component : Error
  duplicate_path traverses_symlink : Names → Error
  io : ℕ → Error

-- whether two of `std::path::Component` are equal
abbrev pub component_beq : Component → Component → Bool
component_beq root_dir root_dir = true
component_beq cur_dir cur_dir = true
component_beq parent_dir parent_dir = true
component_beq prefix prefix = true
component_beq (normal a) (normal b) = a == b
component_beq _ _ = false

-- `Path::components` behind the first part: empty parts and "." are left out
unfoldable pub rest_components : List Str → List Component
rest_components [] = []
rest_components (part ∷ parts) =
    let rest = rest_components parts in
    if part == []
    then rest
    else if part == (dot ∷ [])
    then rest
    else if part == (dot ∷ dot ∷ [])
    then parent_dir ∷ rest
    else normal part ∷ rest

abbrev pub relative_components : List Str → List Component
relative_components [] = []
relative_components (part ∷ parts) =
    if part == (dot ∷ []) then cur_dir ∷ rest_components parts else rest_components (part ∷ parts)

abbrev pub starts_with_slash : Str → Bool
starts_with_slash [] = false
starts_with_slash (c ∷ cs) = eqb c slash

unfoldable pub path_components : Str → List Component
path_components path =
    if starts_with_slash path
    then root_dir ∷ rest_components (split path)
    else relative_components (split path)

-- without the last name, which `pop` removes
unfoldable pub drop_last : Names → Names
drop_last [] = []
drop_last (n ∷ []) = []
drop_last (n ∷ m ∷ names) = n ∷ drop_last (m ∷ names)

-- the loop of `normalize_relative_path`
unfoldable pub normalize_from : Names → List Component → Result Error Names
unfolding drop_last
normalize_from names [] = ok names
normalize_from names (normal c ∷ cs) = normalize_from (names ++ c ∷ []) cs
normalize_from names (cur_dir ∷ cs) = normalize_from names cs
normalize_from names (parent_dir ∷ cs) =
    let rest = normalize_from (drop_last names) cs in
    if names == [] then err escapes_repository else rest
normalize_from names (root_dir ∷ cs) = err not_relative
normalize_from names (prefix ∷ cs) = err not_relative

unfoldable pub normalize_relative_path : List Component → Result Error Names
unfolding normalize_from
normalize_relative_path path =
    and_then (normalize_from [] path)
      λ names. (if names == [] then err no_file_component else ok names)

-- `Path::strip_prefix`, by components
abbrev pub strip_prefix : List Component → List Component → Option (List Component)
strip_prefix [] path = some path
strip_prefix (p ∷ ps) [] = none
strip_prefix (p ∷ ps) (c ∷ cs) =
    let rest = strip_prefix ps cs in if component_beq p c then rest else none

-- `Path::starts_with`, by names
unfoldable pub starts_with : Names → Names → Bool
starts_with front [] = front == []
starts_with [] (n ∷ names) = true
starts_with (p ∷ ps) (n ∷ names) = p == n && starts_with ps names

-- the data directory below the repository, if it is there: `strip_prefix(..).ok().map(..)`
unfoldable pub relative_data_dir : Str → Str → Result Error (Option Names)
relative_data_dir repo_dir data_dir =
    elim (strip_prefix (path_components repo_dir) (path_components data_dir)) [
      | none ↦ ok none
      | some path ↦ and_then (normalize_relative_path path) λ names. ok (some names)
    ]

abbrev pub is_data : Option Names → Names → Bool
is_data none path = false
is_data (some data_dir) path = starts_with data_dir path

-- Over the metadata of a path below the repository: whether it is a symbolic link.
module _ (is_symlink : Names → Result Error Bool) where
  -- the loop over the components of the parent, with those before
  unfoldable pub reject_from : Names → Names → Names → Result Error (Unit {0})
  reject_from path candidate [] = ok tt
  reject_from path candidate (c ∷ cs) = and_then (is_symlink (candidate ++ c ∷ [])) λ link.
      (let rest = reject_from path (candidate ++ c ∷ []) cs in
        if link then err (traverses_symlink path) else rest)

  unfoldable pub reject_symlink_ancestors : Names → Result Error (Unit {0})
  unfolding reject_from drop_last
  reject_symlink_ancestors path = reject_from path [] (drop_last path)

  unfoldable pub clean_each : Option Names → List Names → List Str → Result Error (List Names)
  unfolding HashSet.insert reject_symlink_ancestors
  clean_each data_dir seen [] = ok []
  clean_each data_dir seen (input ∷ files) =
      and_then (normalize_relative_path (path_components input)) λ path.
        (let skipped = clean_each data_dir seen files in
          let kept = and_then (reject_symlink_ancestors path) λ _.
            and_then (clean_each data_dir (HashSet.insert path seen).0 files)
              λ rest. ok (path ∷ rest) in
          if is_data data_dir path
          then skipped
          else if (HashSet.insert path seen).1
          then kept
          else err (duplicate_path path))

  unfoldable pub clean_file_list : Str → Str → List Str → Result Error (List Names)
  unfolding clean_each relative_data_dir
  clean_file_list repo_dir data_dir files =
      and_then (relative_data_dir repo_dir data_dir) λ dir. clean_each dir [] files
