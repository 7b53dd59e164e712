-- ===== src/PackIndex/Layout/Ordering.antt =====
-- `compute_object_offsets_and_ordering` of packidx.rs: the order and the place of every object.
use elfshaker.Prelude.{
  ℕ, ◌<◌, ◌≡◌, refl, sym, arith, some, List, map, returns, get_elem?, All-of-sort, All-sort,
  AllPairs-sort, IsSorted, sort, sort-IsSorted,
}
use elfshaker.Algo.{u64_mod}
use elfshaker.BTreeMap
use elfshaker.BTreeMap.{IsDense}
use elfshaker.EntryPool.{Handle}
use elfshaker.PackIndex.Types.{ObjectMetadata}
use elfshaker.PackIndex.Index.{PackIndex}
use elfshaker.PackIndex.Layout.{size_handle, pair_le, compute_object_offsets_and_ordering}
use elfshaker.PackIndex.Layout.Offsets.{
  Table, total_size, LaidOut, OtherHandle, HasSize, set_offsets-LaidOut, total_size-sort,
}
use elfshaker.PackIndex.Layout.Handles.{
  size_handle-AllPairs, size_handle-HasSize, Stands, Stands-self, size_handle-get,
}

-- how the objects of `index` stand in the pack
pub record Ordering (index : PackIndex) (table : Table) (order : List (ℕ × Handle)) : Type 0 where
  pub sorted : IsSorted pair_le order
  pub laid_out : LaidOut 0 order table
  pub complete :
      (h : Handle) (om : ObjectMetadata)
      → BTreeMap.get h index.object_metadata ≡ some om
      → (i : ℕ) × (get_elem? order i ≡ some (om.size, h))
  pub total : total_size order ≡ total_size (size_handle index.object_metadata)

-- In an index whose objects have the handles 0, 1, … and fewer than 2^64 bytes together, no
-- `unwrap` fails: the objects are ordered by size and then by handle, every one of them stands in
-- the order, each keeps its size, and each starts where the one before it ends.
pub compute_object_offsets_and_ordering-Ordering :
    (index : PackIndex)
    → IsDense 0 index.object_metadata
    → total_size (size_handle index.object_metadata) < u64_mod
    → (table : Table) × (order : List (ℕ × Handle)) × (compute_object_offsets_and_ordering index
        ≡ returns (record index { object_metadata = table }, map (λ p. p.1) order))
      × Ordering index table order
unfolding compute_object_offsets_and_ordering Stands
compute_object_offsets_and_ordering-Ordering index d fits =
    let ps = size_handle index.object_metadata in
    let order = sort pair_le ps in
    let (table, eq, out, _) =
      set_offsets-LaidOut 0 order index.object_metadata
        (AllPairs-sort pair_le OtherHandle (λ a b h e. h (sym e)) ps
          (size_handle-AllPairs 0 index.object_metadata d))
        (All-sort pair_le (HasSize index.object_metadata) ps
          (size_handle-HasSize 0 index.object_metadata d))
        (omega (arith, total_size-sort ps)) in
    (
      table,
      order,
      rw eq refl,
      record {
        sorted = sort-IsSorted pair_le (λ a b c p q. ground arith) (λ a b p. ground arith) ps;
        laid_out = out;
        complete = λ h om p.
            size_handle-get (Stands order) h om index.object_metadata
              (All-of-sort pair_le (Stands order) ps (Stands-self order)) p;
        total = total_size-sort ps;
      },
    )
