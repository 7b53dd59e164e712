-- ===== src/Repo/Cleanup.antt =====
-- Empty directories are removed: `remove_empty_dirs` and the queue of repo/fs.rs. A path is its
-- names from the root.
pub mod Cleaned
pub mod Safety
use elfshaker.Prelude.{
  ℕ, suc, zero, Bool, true, false, not, ◌&&◌, ◌||◌, Option, none, some, List, [], ◌∷◌, ◌++◌, length,
  contains, if◌then◌else◌, Result, ok, err, Run, returns, panics, ◌>>=◌, Eq, ◌==◌, list_eq, nat_eq,
}
use elfshaker.HashSet
use elfshaker.PackPath.{dot}
use elfshaker.Repo.Clean.{Str, Names, drop_last, starts_with}

-- What the file system holds: the directories, and the files and links.
pub record Store : Type 0 where
  pub dirs : List Names
  pub others : List Names

pub data IoError : Type 0 where
  not_found directory_not_empty not_a_directory : IoError
  os : ℕ → IoError

-- strictly below
abbrev pub is_below : Names → Names → Bool
is_below dir path = starts_with dir path && not (dir == path)

abbrev pub any_below : Names → List Names → Bool
any_below dir [] = false
any_below dir (p ∷ ps) = is_below dir p || any_below dir ps

abbrev pub Outcome : Type 0
Outcome = Store × Result IoError (Unit {0})

-- the path behind the directory, if it is in it
abbrev pub strip_prefix : Names → Names → Option Names
strip_prefix [] path = some path
strip_prefix (p ∷ ps) [] = none
strip_prefix (p ∷ ps) (n ∷ names) =
    let rest = strip_prefix ps names in if p == n then rest else none

unfoldable pub contains_parent_dir_component : Names → Bool
contains_parent_dir_component path = contains path (dot ∷ dot ∷ [])

-- Over the faults of the operating system, by the directory.
module _ (fault : Names → Option ℕ) where
  -- `fs::remove_dir`
  unfoldable pub remove_dir : Store → Names → Outcome
  remove_dir st dir = elim (fault dir) [
    | some e ↦ (st, err (os e))
    | none ↦
        if contains st.others dir
        then (st, err not_a_directory)
        else if not (contains st.dirs dir)
        then (st, err not_found)
        else if any_below dir st.dirs || any_below dir st.others
        then (st, err directory_not_empty)
        else (record st { dirs = HashSet.without dir st.dirs }, ok tt)
  ]

  -- The call on the parent is one with a name less, so the names of the path are fuel enough.
  unfoldable pub remove_from : ℕ → Store → Names → Names → Run Outcome
  unfolding remove_dir contains_parent_dir_component drop_last
  remove_from zero st leaf boundary = panics
  remove_from (suc fuel) st leaf boundary = elim (strip_prefix boundary leaf) [
    | none ↦ panics
    | some relative ↦
        if contains_parent_dir_component relative
        then panics
        else if leaf == boundary
        then returns (st, ok tt)
        else elim (remove_dir st leaf).1 [
          | err directory_not_empty ↦ returns (st, ok tt)
          | err not_found ↦ returns (st, ok tt)
          | err e ↦ returns (st, err e)
          | ok _ ↦
              if drop_last leaf == boundary
              then returns ((remove_dir st leaf).0, ok tt)
              else remove_from fuel (remove_dir st leaf).0 (drop_last leaf) boundary
        ]
  ]

  unfoldable pub remove_empty_dirs : Store → Names → Names → Run Outcome
  unfolding remove_from
  remove_empty_dirs st leaf boundary = remove_from (suc (length leaf)) st leaf boundary

  -- the queue, with the store: `last`
  abbrev pub Queue : Type 0
  Queue = Option (Names × Names)

  unfoldable pub enqueue :
      Store → Queue → Names → Names → Run (Store × Queue × Result IoError (Unit {0}))
  unfolding remove_empty_dirs
  enqueue st none leaf boundary = returns (st, some (leaf, boundary), ok tt)
  enqueue st (some (last_leaf, last_boundary)) leaf boundary =
      if last_boundary == boundary && starts_with last_leaf leaf
      then returns (st, some (leaf, last_boundary), ok tt)
      else remove_empty_dirs st last_leaf last_boundary >>= λ done. (elim done.1 [
        | err e ↦ returns (done.0, some (last_leaf, last_boundary), err e)
        | ok _ ↦ returns (done.0, some (leaf, boundary), ok tt)
      ])

  -- `take` leaves the queue empty, whatever comes of the removal
  unfoldable pub process : Store → Queue → Run Outcome
  unfolding remove_empty_dirs
  process st none = returns (st, ok tt)
  process st (some (last_leaf, last_boundary)) = remove_empty_dirs st last_leaf last_boundary
