-- ===== src/Repo/Ancestors.antt =====
-- The directories above the files of an extraction: `preflight_destination_ancestors` of
-- repo/repository.rs, on Unix. A path is its names below the destination.
pub mod Links
use elfshaker.Prelude.{
  ℕ, Bool, true, false, not, ◌&&◌, List, [], ◌∷◌, ◌++◌, contains, if◌then◌else◌, Result, ok, err,
  and_then, list_eq, nat_eq,
}
use elfshaker.PackPath.{components}
use elfshaker.Repo.Clean.{Names, drop_last}

-- the kinds of an error of `fs::symlink_metadata`
pub data IoError : Type 0 where
  not_found not_a_directory : IoError
  os : ℕ → IoError

pub data Error : Type 0 where
  symlinked_destination : Names → Error
  io : ℕ → Error

-- Over the metadata of a path, whether it is a symbolic link, and the ancestors that the
-- extraction removes itself.
module _ (is_symlink : Names → Result IoError Bool) (removable : List Names) where
  -- the loop over the components of the parent, with those before
  unfoldable pub check_from : Names → Names → Result Error (Unit {0})
  check_from current [] = ok tt
  check_from current (c ∷ cs) =
      let rest = check_from (current ++ c ∷ []) cs in
      elim (is_symlink (current ++ c ∷ [])) [
        | ok link ↦
            if link && not (contains removable (current ++ c ∷ []))
            then err (symlinked_destination (current ++ c ∷ []))
            else rest
        | err not_found ↦ ok tt
        | err not_a_directory ↦ ok tt
        | err (os e) ↦ err (io e)
      ]

  unfoldable pub check_destination_ancestors : Names → Result Error (Unit {0})
  unfolding check_from drop_last
  check_destination_ancestors relative = check_from [] (drop_last relative)

  -- the components of `to_native`, for each path
  unfoldable pub preflight_destination_ancestors : List (List ℕ) → Result Error (Unit {0})
  unfolding check_destination_ancestors
  preflight_destination_ancestors [] = ok tt
  preflight_destination_ancestors (path ∷ paths) =
      and_then (check_destination_ancestors (components path))
        λ _. preflight_destination_ancestors paths
