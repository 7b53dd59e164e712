-- ===== src/Runs/Pools.antt =====
-- Runs of repo/algo.rs and of entrypool.rs.
use elfshaker.Prelude.{
  ℕ, ◌+◌, ◌%◌, ◌/◌, ◌≤◌, ◌<◌, ◌≡◌, ◌≢◌, arith, some, List, [], ◌∷◌, map, length, max, min, concat,
  All, nat_eq, list_eq,
}
use elfshaker.Algo.{run_in_parallel, partition_by_u64, total_weight, u32_mod}
use elfshaker.Algo.Parallel.{run_in_parallel-map}
use elfshaker.Algo.Partition.{AllButLast, partition_by_u64_covers, partition_by_u64_bound}
use elfshaker.EntryPool
use elfshaker.EntryPool.{EntryPool, Handle}
use elfshaker.EntryPool.Interning.{IsInterned}
use elfshaker.EntryPool.Serde.{deserialize-serialize, deserialize-IsInterned}

abbrev five : List ℕ
five = 10 ∷ 20 ∷ 30 ∷ 40 ∷ 50 ∷ []

run_in_parallel-map_example : run_in_parallel 2 five (λ n. n + 1) ≡ some (map (λ n. n + 1) five)
run_in_parallel-map_example = run_in_parallel-map 2 five (λ n. n + 1) (omega arith)

partition_by_u64_covers_example :
    (concat (partition_by_u64 (λ n. n) 3 five) ≡ five)
    × All (λ s. s ≢ []) (partition_by_u64 (λ n. n) 3 five)
    × (length (partition_by_u64 (λ n. n) 3 five) ≤ max 3 1)
partition_by_u64_covers_example = partition_by_u64_covers (λ n. n) 3 five

partition_by_u64_bound_example :
    AllButLast
      (λ s.
        total_weight (λ n. n) s
        ≤ total_weight (λ n. n) five / max (min 3 (length five % u32_mod)) 1)
      (partition_by_u64 (λ n. n) 3 five)
partition_by_u64_bound_example = partition_by_u64_bound (λ n. n) 3 five

-- a pool that has been read from three elements, one of them twice
abbrev pool : EntryPool ℕ
pool = EntryPool.deserialize (7 ∷ 8 ∷ 7 ∷ [])

pool-IsInterned : IsInterned pool
pool-IsInterned = deserialize-IsInterned (7 ∷ 8 ∷ 7 ∷ []) (omega arith)

pool_small : length pool.entries < u32_mod
unfolding EntryPool.deserialize EntryPool.from_iter EntryPool.get_or_insert EntryPool.get
    EntryPool.map_get EntryPool.insert_new
pool_small = omega arith

deserialize-serialize_example :
    ((h : Handle)
      → EntryPool.lookup (EntryPool.deserialize (EntryPool.serialize pool)) h
        ≡ EntryPool.lookup pool h)
    × ((a : ℕ)
        → EntryPool.get (EntryPool.deserialize (EntryPool.serialize pool)) a ≡ EntryPool.get pool a)
    × IsInterned (EntryPool.deserialize (EntryPool.serialize pool))
deserialize-serialize_example =
    deserialize-serialize pool pool-IsInterned (omega (arith, pool_small))
