-- ===== src/Algo/Parallel.antt =====
-- `run_in_parallel` of repo/algo.rs keeps the order of its input.
use native.Mathlib.Nat.{div-add-mod, mod-lt}
use elfshaker.Prelude.{
  ltb, ℕ, zero, suc, ◌+◌, ◌*◌, ◌/◌, ◌%◌, ◌≤◌, ◌<◌, ◌≡◌, refl, ap, ◌∙◌, arith, some, List, [], ◌∷◌,
  ◌++◌, map, length, take, drop, concat, take-append-drop, length-drop, map-append, Bool-cases, leb,
  leb→le, leb→gt, inl, inr,
}
use elfshaker.Algo.{groups, n_per_thread, thread_items, run_in_parallel}

zero_of-mul_lt_self : (k g : ℕ) → k * g < k → k * g ≡ 0
zero_of-mul_lt_self k zero h = omega arith
zero_of-mul_lt_self k (suc g) h = absurd (omega arith)

quotient_one : (n q r m : ℕ) → m ≡ n * q + r → r < n → n ≤ m → m < 2 * n → q ≡ 1
quotient_one n zero r m e lt lo hi = absurd (omega arith)
quotient_one n (suc zero) r m e lt lo hi = refl
quotient_one n (suc (suc q)) r m e lt lo hi = absurd (omega arith)

module _ {ℓ} {A : Type ℓ} where
  concat-groups :
      (fuel k : ℕ) (items : List A)
      → 0 < k
      → length items ≤ fuel
      → concat (groups fuel k items) ≡ items
  unfolding groups
  concat-groups zero k [] pos h = refl
  concat-groups zero k (x ∷ xs) pos h = absurd (omega arith)
  concat-groups (suc fuel) k [] pos h = refl
  concat-groups (suc fuel) k (x ∷ xs) pos h =
      ap (λ r. take k (x ∷ xs) ++ r)
        (concat-groups fuel k (drop k (x ∷ xs)) pos (omega (arith, length-drop k (x ∷ xs))))
      ∙ take-append-drop k (x ∷ xs)

  n_per_thread_pos : (nthread : ℕ) (items : List A) → 0 < nthread → 0 < n_per_thread nthread items
  unfolding n_per_thread
  n_per_thread_pos nthread items h = ground arith

  length-groups :
      (fuel k : ℕ) (items : List A)
      → 0 < k
      → length items ≤ fuel
      → (length items ≤ k * length (groups fuel k items))
        × (k * length (groups fuel k items) < length items + k)
  unfolding groups
  length-groups zero k [] pos h = omega arith
  length-groups zero k (x ∷ xs) pos h = absurd (omega arith)
  length-groups (suc fuel) k [] pos h = omega arith
  length-groups (suc fuel) k (x ∷ xs) pos h =
      let rest = drop k (x ∷ xs) in
      let ih = length-groups fuel k rest pos (omega (arith, length-drop k (x ∷ xs))) in
      elim (Bool-cases (leb k (length (x ∷ xs)))) [
        | inl le ↦ omega (arith, ih, length-drop k (x ∷ xs), leb→le k (length (x ∷ xs)) le)
        | inr gt ↦
            let empty : length rest ≡ 0 =
              omega (arith, length-drop k (x ∷ xs), leb→gt k (length (x ∷ xs)) gt) in
            omega (
              arith,
              ih,
              empty,
              leb→gt k (length (x ∷ xs)) gt,
              zero_of-mul_lt_self k (length (groups fuel k rest)) (omega (arith, ih, empty)),
            )
      ]

  n_per_thread_one :
      (nthread : ℕ) (items : List A)
      → 0 < nthread
      → length items < 2 * nthread
      → n_per_thread nthread items ≡ 1
  unfolding n_per_thread
  n_per_thread_one nthread items pos h = elim (Bool-cases (ltb (length items) nthread)) [
    | inl lt ↦ rw lt
    | inr ge ↦ rw ge (
        quotient_one nthread (length items / nthread) (length items % nthread) (length items)
          (omega (arith, div-add-mod (length items) nthread))
          (omega (arith, mod-lt (length items) pos)) (ground arith) h)
  ]

  -- With at least one thread, and fewer than twice as many items as threads, every item gets a
  -- thread of its own: between n and 2 n items more than n threads are started.
  pub length-thread_items :
      (nthread : ℕ) (items : List A)
      → 0 < nthread
      → length items < 2 * nthread
      → length (thread_items nthread items) ≡ length items
  unfolding thread_items
  length-thread_items nthread items pos h =
      let (lo, hi) = length-groups (length items) 1 items (omega arith) (omega arith) in
      rw (n_per_thread_one nthread items pos h) (omega (arith, lo, hi))

module _ {ℓ κ} {A : Type ℓ} {B : Type κ} where
  concat-map-map : (f : A → B) (xss : List (List A)) → concat (map (map f) xss) ≡ map f (concat xss)
  concat-map-map f [] = refl
  concat-map-map f (xs ∷ xss) = rw (concat-map-map f xss, map-append)

  -- With at least one thread the call ends, and its result is the workload of each item in the
  -- order of the items, however many threads there are.
  pub run_in_parallel-map :
      (nthread : ℕ) (items : List A) (workload : A → B)
      → 0 < nthread
      → run_in_parallel nthread items workload ≡ some (map workload items)
  unfolding run_in_parallel
  run_in_parallel-map nthread items workload h = ground (
    arith,
    concat-map-map workload (thread_items nthread items),
    concat-groups (length items) (n_per_thread nthread items) items
        (n_per_thread_pos nthread items h) (omega arith),
  )
