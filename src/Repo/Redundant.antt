-- ===== src/Repo/Redundant.antt =====
-- `find_duplicate_snapshots` and `find_redundant_loose_packs` of repo/repository.rs: the loose packs
-- whose snapshot some other pack has.
pub mod Groups
pub mod Items
pub mod Present
pub mod Removal
pub mod Reported
pub mod Tasks
use elfshaker.Prelude.{
  ℕ, Bool, true, false, not, ◌&&◌, ◌||◌, Option, none, some, List, [], ◌∷◌, ◌++◌, length, ltb,
  if◌then◌else◌, Result, ok, err, and_then, Run, returns, panics, ◌>>=◌, Eq, ◌==◌, list_eq, nat_eq,
}
use elfshaker.HashSet
use elfshaker.PackIndex.Types.{ObjectChecksum}
use elfshaker.PackIndex.Index.{Tag, PackIndex}
use elfshaker.PackIndex.Identity.{compute_snapshot_checksum}
use elfshaker.Repo.Id.{Str, PackId, pack, SnapshotId, name_of, loose_prefix, new}
use elfshaker.Repo.Lookup.{Error, Storage, packs, is_pack_loose, load_index}

-- a snapshot with its checksum
abbrev pub Item : Type 0
Item = ObjectChecksum × SnapshotId

-- the `HashMap` of the groups; its order stands for the unspecified one
abbrev pub Groups : Type 0
Groups = List (ObjectChecksum × List SnapshotId)

-- `checksum_to_group.entry(checksum).or_default().push(snapshot)`
unfoldable pub push_group : ObjectChecksum → SnapshotId → Groups → Groups
push_group c s [] = (c, s ∷ []) ∷ []
push_group c s ((k, ss) ∷ gs) =
    let rest = push_group c s gs in if k == c then (k, ss ++ s ∷ []) ∷ gs else (k, ss) ∷ rest

unfoldable pub group_all : Groups → List Item → Groups
unfolding push_group
group_all gs [] = gs
group_all gs ((c, s) ∷ items) = group_all (push_group c s gs) items

-- `collect::<Result<..>>()` over the tasks: the first error, or all they gave
unfoldable pub collect_items : List (Result Error (List Item)) → Result Error (List Item)
collect_items [] = ok []
collect_items (r ∷ rs) = and_then r λ items. and_then (collect_items rs) λ rest. ok (items ++ rest)

-- `assert_eq!` of the pack and the tag
unfoldable pub packs_to_remove : List SnapshotId → Run (List PackId)
packs_to_remove [] = returns []
packs_to_remove (s ∷ ss) =
    let rest = packs_to_remove ss >>= λ ps. returns (s.pack ∷ ps) in
    if name_of s.pack == (loose_prefix ++ s.tag) then rest else panics

module _ (st : Storage) where
  -- `SnapshotId::new(..).unwrap()`
  abbrev pub unwrap_id {ℓ} : {E : Type ℓ} → Result E SnapshotId → Run SnapshotId
  unwrap_id (ok s) = returns s
  unwrap_id (err e) = panics

  -- `expect` at the checksum
  abbrev pub expect_checksum : Option ObjectChecksum → Run ObjectChecksum
  expect_checksum (some c) = returns c
  expect_checksum none = panics

  -- the snapshots of one pack
  unfoldable pub items_of : PackId → PackIndex → List Tag → Run (List Item)
  items_of p index [] = returns []
  items_of p index (tag ∷ tags) =
      let rest = items_of p index tags in
      compute_snapshot_checksum st.sha1 index tag >>= λ checksum. expect_checksum checksum >>= λ c.
      unwrap_id (new st.is_graphic p tag) >>= λ s. rest >>= λ items. returns ((c, s) ∷ items)

  -- the task for a pack; a tag that stands twice is one key of its map
  unfoldable pub task : PackId → Run (Result Error (List Item))
  unfolding items_of
  task p = elim (load_index st p) [
    | err e ↦ returns (err e)
    | ok index ↦
        items_of p index (HashSet.collect index.snapshot_tags) >>= λ items. returns (ok items)
  ]

  -- `run_in_parallel`: every task is run; they add to the groups under a lock, here in their order
  unfoldable pub run_tasks : List PackId → Run (List (Result Error (List Item)))
  run_tasks [] = returns []
  run_tasks (p ∷ ps) = task p >>= λ r. run_tasks ps >>= λ rs. returns (r ∷ rs)

  unfoldable pub snapshot_items : List PackId → Run (Result Error (List Item))
  snapshot_items ps = run_tasks ps >>= λ rs. returns (collect_items rs)

  unfoldable pub find_duplicate_snapshots : List PackId → Run (Result Error Groups)
  unfolding snapshot_items
  find_duplicate_snapshots ps =
      snapshot_items ps >>= λ found. returns (and_then found λ items. ok (group_all [] items))

  abbrev pub is_any_non_loose : List SnapshotId → Bool
  is_any_non_loose [] = false
  is_any_non_loose (s ∷ ss) = not (is_pack_loose st s.pack) || is_any_non_loose ss

  unfoldable pub filter_out_packed_snapshots : List SnapshotId → List SnapshotId
  filter_out_packed_snapshots [] = []
  filter_out_packed_snapshots (s ∷ ss) =
      let rest = filter_out_packed_snapshots ss in
      if is_pack_loose st s.pack then s ∷ rest else rest

  unfoldable pub loose_present_in_packs : Groups → List SnapshotId
  loose_present_in_packs [] = []
  loose_present_in_packs ((c, ss) ∷ gs) =
      let rest = loose_present_in_packs gs in
      if ltb 1 (length ss) && is_any_non_loose ss
      then filter_out_packed_snapshots ss ++ rest
      else rest

  abbrev pub remove_loose : Result Error Groups → Run (Result Error (List PackId))
  remove_loose (err e) = returns (err e)
  remove_loose (ok gs) = packs_to_remove (loose_present_in_packs gs) >>= λ ps. returns (ok ps)

  unfoldable pub find_redundant_loose_packs : Run (Result Error (List PackId))
  unfolding find_duplicate_snapshots
  find_redundant_loose_packs = elim (packs st) [
    | err e ↦ returns (err e)
    | ok all ↦ find_duplicate_snapshots all >>= λ groups. remove_loose groups
  ]
