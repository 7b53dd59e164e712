-- ===== src/Repo/Collisions.antt =====
-- `preflight_untracked_collisions` of repo/repository.rs: what stands where a snapshot is extracted
-- has to be of the snapshot before. A path is its names below the destination.
pub mod Tracked
pub mod Owned
use elfshaker.Prelude.{
  ℕ, Bool, true, false, ◌||◌, Option, none, some, List, [], ◌∷◌, ◌++◌, map, lex, leb, sort,
  contains, if◌then◌else◌, Result, ok, err, and_then, map_err, Eq, ◌==◌, list_eq, nat_eq,
}
use elfshaker.HashSet
use elfshaker.PackPath.{PackPathError, Component, normal, components, from_native}
use elfshaker.Repo.Policy.{PathBytes, TargetPlatform, Key, PolicyError, Unicode, target_path_key}
use elfshaker.Repo.Clean.{Str, Names, drop_last}

-- What stands at a path: a file or a link, which is not followed, or a directory.
mutual
  pub data Node : Type 0 where
    leaf : Node
    dir : Children → Node

  pub data Children : Type 0 where
    end : Children
    child : Str → Node → Children → Children

pub data Error : Type 0 where
  policy : PolicyError → Error
  invalid_logical_path : PackPathError → Error
  io : ℕ → Error
  untracked_paths : List Names → Error

abbrev pub child_of : Str → Children → Option Node
child_of name end = none
child_of name (child n node rest) =
    let later = child_of name rest in if n == name then some node else later

-- what `symlink_metadata` finds, where the path goes through no link; `none` is `NotFound` or
-- `NotADirectory`
unfoldable pub find : Node → Names → Option Node
find node [] = some node
find leaf (n ∷ names) = none
find (dir children) (n ∷ names) = elim (child_of n children) [
  | none ↦ none
  | some node ↦ find node names
]

-- the keys `key[..length]` for `length in 1..key.len()`
unfoldable pub prefixes_from : Key → Key → List Key
prefixes_from front [] = []
prefixes_from front (c ∷ []) = []
prefixes_from front (c ∷ d ∷ cs) = (front ++ c ∷ []) ∷ prefixes_from (front ++ c ∷ []) (d ∷ cs)

abbrev pub insert_directories : List Key → List Key → List Key
insert_directories [] set = set
insert_directories (k ∷ ks) set = insert_directories ks (HashSet.insert k set).0

-- one of `ancestors().skip(1)` is in the set; the last of them is the empty path
unfoldable pub any_ancestor : List Names → Names → Names → Bool
any_ancestor removable front [] = false
any_ancestor removable front (n ∷ names) =
    contains removable front || any_ancestor removable (front ++ n ∷ []) names

abbrev pub is_owned : List Key → List Key → Key → Node → Bool
is_owned tracked directories key leaf = contains tracked key
is_owned tracked directories key (dir children) = contains directories key

-- `dedup`: of equal neighbours the first is kept
unfoldable pub dedup : List Names → List Names
dedup [] = []
dedup (p ∷ []) = p ∷ []
dedup (p ∷ q ∷ ps) = let rest = dedup (q ∷ ps) in if p == q then rest else p ∷ rest

abbrev pub path_le : Names → Names → Bool
path_le = lex (lex leb)

abbrev pub report : List Names → Result Error (Unit {0})
report [] = ok tt
report (c ∷ cs) = err (untracked_paths (c ∷ cs))

-- Over the faults of the operating system, by the path.
module _ (u : Unicode) (platform : TargetPlatform) (fault : Names → Option ℕ) where
  -- the loop over the entries of the head, by their paths: `tracked` and `directories`
  unfoldable pub track : List Key → List Key → List PathBytes → Result Error (List Key × List Key)
  unfolding prefixes_from HashSet.insert
  track tracked directories [] = ok (tracked, directories)
  track tracked directories (path ∷ paths) =
      and_then (map_err policy (target_path_key u path platform)) λ key.
        track (HashSet.insert key tracked).0 (insert_directories (prefixes_from [] key) directories)
          paths

  -- the key of a path that the walk finds
  unfoldable pub key_of : Names → Result Error Key
  key_of path =
      and_then (map_err invalid_logical_path (from_native (map normal path)))
        λ bytes. map_err policy (target_path_key u bytes platform)

  -- `item?`, and the key
  unfoldable pub entered : Names → Result Error Key
  entered path = elim (fault path) [ some e ↦ err (io e) | none ↦ key_of path ]

  module _ (tracked directories : List Key) where
    -- The walk: `collisions` with what it adds. A directory that is not owned is not entered.
    unfoldable mutual
      pub walk : List Names → Names → Node → Result Error (List Names)
      walk collisions path leaf =
          and_then (entered path)
            λ key. ok (if contains tracked key then collisions else collisions ++ path ∷ [])
      walk collisions path (dir children) = and_then (entered path) λ key.
          (let inside = walk_children collisions path children in
            if contains directories key then inside else ok (collisions ++ path ∷ []))

      pub walk_children : List Names → Names → Children → Result Error (List Names)
      walk_children collisions path end = ok collisions
      walk_children collisions path (child n node rest) =
          and_then (walk collisions (path ++ n ∷ []) node) λ later. walk_children later path rest

    -- the loop over the entries, by their paths; `to_native` cannot fail on Unix
    unfoldable pub check_entries :
        Node → List Names → List Names → List PathBytes → Result Error (List Names)
    unfolding walk any_ancestor find
    check_entries root removable collisions [] = ok collisions
    check_entries root removable collisions (path ∷ paths) =
        let skipped = check_entries root removable collisions paths in
        let walked : Result Error (List Names) = elim (find root (components path)) [
          | none ↦ skipped
          | some node ↦
              and_then (walk collisions (components path) node)
                λ later. check_entries root removable later paths
        ] in
        if any_ancestor removable [] (components path)
        then skipped
        else elim (fault (components path)) [ some e ↦ err (io e) | none ↦ walked ]

  unfoldable pub preflight_untracked_collisions :
      Node → List PathBytes → List PathBytes → List Names → Result Error (Unit {0})
  unfolding track check_entries dedup
  preflight_untracked_collisions root entries head_entries removable =
      and_then (track [] [] head_entries) λ sets.
        and_then (check_entries sets.0 sets.1 root removable [] entries)
          λ collisions. report (dedup (sort path_le collisions))
