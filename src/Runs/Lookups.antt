-- ===== src/Runs/Lookups.antt =====
-- Runs of the search for packs, repo/repository.rs.
use elfshaker.Prelude.{
  none, some, err, false, ℕ, ◌≡◌, ◌↔◌, ◌&&◌, refl, true, List, [], ◌∷◌, ◌++◌, returns, ok, contains,
  list_eq, nat_eq,
}
use elfshaker.HashSet
use elfshaker.PackPath
use elfshaker.PackIndex.Index.{PackIndex, new, resolve_snapshot}
use elfshaker.PackIndex.Changes.{apply_changes}
use elfshaker.PackIndex.Identity
use elfshaker.Repo.Id
use elfshaker.Repo.Id.{PackId, pack, loose_prefix, dot_pack_index_extension}
use elfshaker.Repo.Lookup
use elfshaker.Repo.Lookup.{
  Storage, PackFile, load, packs, pack_le, pack_eq, is_pack_loose, find_pack_with_snapshot,
}
use elfshaker.Repo.Lookup.Agree.{Chosen, lists, any_loose, find_pack_with_snapshot-Chosen}
use elfshaker.Repo.Redundant
use elfshaker.Repo.Redundant.{Item, find_redundant_loose_packs, snapshot_items}
use elfshaker.Repo.Redundant.Reported.{IsRedundant, find_redundant_loose_packs_iff}
use elfshaker.Runs.Index.{v1}

-- one snapshot, without files
abbrev one_snapshot : PackIndex
one_snapshot = record new {
  snapshot_tags = v1 ∷ [];
  snapshot_deltas = record { added = []; removed = [] } ∷ [];
}

abbrev full_pack : List ℕ
full_pack = b'p' ∷ []

abbrev loose_pack : List ℕ
loose_pack = loose_prefix ++ v1

-- LOOSE_DIR
abbrev loose_dir : List ℕ
loose_dir = b'l' ∷ b'o' ∷ b'o' ∷ b's' ∷ b'e' ∷ []

-- the pack "p" and the loose pack of the tag, which both have the snapshot
abbrev storage : Storage
storage = record {
  create_root = none;
  walk =
      ok (record { is_file = false; path = []; tags = err (load 0) })
      ∷ ok (record {
        is_file = true;
        path = some (full_pack ++ dot_pack_index_extension) ∷ [];
        tags = ok (v1 ∷ []);
      })
      ∷ ok (record {
        is_file = true;
        path = some loose_dir ∷ some (v1 ++ dot_pack_index_extension) ∷ [];
        tags = ok (v1 ∷ []);
      })
      ∷ [];
  exists = λ name. true;
  index = λ name. ok one_snapshot;
  tags = λ name. ok (v1 ∷ []);
  sha1 = λ bytes. 1 ∷ [];
  is_graphic = λ c. true;
}

lists_packs : packs storage ≡ ok (pack loose_pack ∷ pack full_pack ∷ [])
unfolding packs Lookup.packs_of Lookup.pack_of Lookup.discovered_pack Lookup.logical_pack_id_path
    Lookup.utf8_components Lookup.join Lookup.loose_pack_of PackPath.split Id.from_index_path
    Id.strip_suffix Id.for_loose_snapshot Id.is_valid
lists_packs = refl

finds : find_pack_with_snapshot storage v1 ≡ returns (ok (pack loose_pack))
unfolding find_pack_with_snapshot packs Lookup.packs_of Lookup.pack_of Lookup.discovered_pack
    Lookup.logical_pack_id_path Lookup.utf8_components Lookup.join Lookup.loose_pack_of
    Id.from_index_path Id.strip_suffix Id.for_loose_snapshot Id.is_valid Lookup.packs_with
    Lookup.load_index_snapshots Lookup.choose Lookup.disambiguate_snapshot
    Lookup.are_snapshots_equal Lookup.snapshot_checksum Lookup.load_index Lookup.all_equal
    Lookup.selected Lookup.find_loose is_pack_loose Id.validate Id.is_valid_regular
    Identity.compute_snapshot_checksum Identity.entry_refs_from_handles Identity.checksum_of
    resolve_snapshot apply_changes PackPath.split
finds = refl

find_pack_with_snapshot-Chosen_example :
    (all : List PackId) × (found : List PackId) × (packs storage ≡ ok all)
    × ((q : PackId) → contains found q ≡ (contains all q && lists storage v1 q))
    × Chosen storage v1 found (pack loose_pack)
    × (is_pack_loose storage (pack loose_pack) ≡ any_loose storage v1 found)
find_pack_with_snapshot-Chosen_example =
    find_pack_with_snapshot-Chosen storage v1 (pack loose_pack) finds

reports : find_redundant_loose_packs storage ≡ returns (ok (pack loose_pack ∷ []))
unfolding find_redundant_loose_packs Redundant.find_duplicate_snapshots snapshot_items
    Redundant.run_tasks Redundant.task Redundant.items_of Redundant.collect_items
    Redundant.group_all Redundant.push_group Redundant.loose_present_in_packs
    Redundant.filter_out_packed_snapshots Redundant.packs_to_remove HashSet.collect HashSet.insert
    packs Lookup.packs_of Lookup.pack_of Lookup.discovered_pack Lookup.logical_pack_id_path
    Lookup.utf8_components Lookup.join Lookup.loose_pack_of PackPath.split Id.from_index_path
    Id.strip_suffix Id.for_loose_snapshot Id.is_valid Lookup.load_index is_pack_loose Id.validate
    Id.is_valid_regular Id.new Identity.compute_snapshot_checksum Identity.entry_refs_from_handles
    Identity.checksum_of resolve_snapshot apply_changes
reports = refl

find_redundant_loose_packs_iff_example :
    (all : List PackId) × (packs storage ≡ ok all)
    × ((p : PackId) → (contains (pack loose_pack ∷ []) p ≡ true) ↔ IsRedundant storage all p)
find_redundant_loose_packs_iff_example =
    find_redundant_loose_packs_iff storage (pack loose_pack ∷ []) reports
