-- ===== src/Algo.antt =====
-- repo/algo.rs: work split over threads, and slices cut by weight.
pub mod Parallel
pub mod Partition
use elfshaker.Prelude.{
  ℕ, zero, suc, ◌+◌, ◌-◌, ◌/◌, ◌%◌, ◌^◌, min, max, Option, none, some, List, [], ◌∷◌, map, foldl,
  length, take, drop, concat, ltb, leb, eqb, if◌then◌else◌,
}

module _ {ℓ} {A : Type ℓ} where
  -- `while items.peek().is_some()`: each round takes a group. The fuel bounds the rounds; where it
  -- runs out the items left are dropped.
  pub groups : ℕ → ℕ → List A → List (List A)
  groups zero k items = []
  groups (suc fuel) k [] = []
  groups (suc fuel) k (x ∷ xs) = take k (x ∷ xs) ∷ groups fuel k (drop k (x ∷ xs))

  pub n_per_thread : ℕ → List A → ℕ
  n_per_thread nthread items = if ltb (length items) nthread then 1 else length items / nthread

  -- the items of each thread, in the order of the spawns
  unfoldable pub thread_items : ℕ → List A → List (List A)
  unfolding n_per_thread groups
  thread_items nthread items = groups (length items) (n_per_thread nthread items) items

module _ {ℓ κ} {A : Type ℓ} {B : Type κ} where
  -- The threads run `workload` alone and are joined in the order of their spawns. `none` is the
  -- panic of the `assert!`.
  pub run_in_parallel : ℕ → List A → (A → B) → Option (List B)
  unfolding thread_items
  run_in_parallel nthread items workload =
      if eqb nthread 0
      then none
      else some (concat (map (map workload) (thread_items nthread items)))

abbrev pub u64_mod : ℕ
u64_mod = 2 ^ 64

abbrev pub u32_mod : ℕ
u32_mod = 2 ^ 32

module _ {ℓ} {A : Type ℓ} where
  -- `if begin != i { partitions.push(..) }`
  pub push_slice : List A → List (List A) → List (List A)
  push_slice [] rest = rest
  push_slice (x ∷ xs) rest = (x ∷ xs) ∷ rest

  pub n_partitions : ℕ → List A → ℕ
  n_partitions n xs = max (min n (length xs % u32_mod)) 1

module _ {ℓ} {A : Type ℓ} (eval : A → ℕ) where
  -- `xs.iter().fold(0, |s, x| s + eval(x))`
  pub total_weight : List A → ℕ
  total_weight = foldl (λ s x. (s + eval x) % u64_mod) 0

  -- the inner `while`: the items that `i` passes and the items that it has not reached
  pub fill : ℕ → ℕ → List A → List A × List A
  fill bound curr [] = ([], [])
  fill bound curr (x ∷ xs) =
      let more = fill bound ((curr + eval x) % u64_mod) xs in
      if leb ((curr + eval x) % u64_mod) bound then (x ∷ more.0, more.1) else ([], x ∷ xs)

  -- `for _ in 0..(n - 1)`, and the slice that is left at the end
  pub slices : ℕ → ℕ → List A → List (List A)
  unfolding fill push_slice
  slices zero bound xs = push_slice xs []
  slices (suc rounds) bound xs =
      push_slice (fill bound 0 xs).0 (slices rounds bound (fill bound 0 xs).1)

  pub partition_bound : ℕ → List A → ℕ
  unfolding total_weight n_partitions
  partition_bound n xs = total_weight xs / n_partitions n xs

  pub partition_by_u64 : ℕ → List A → List (List A)
  unfolding slices partition_bound n_partitions
  partition_by_u64 n [] = []
  partition_by_u64 n (x ∷ xs) =
      slices (n_partitions n (x ∷ xs) - 1) (partition_bound n (x ∷ xs)) (x ∷ xs)
