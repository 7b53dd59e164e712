-- ===== src/Algo/Partition.antt =====
-- `partition_by_u64` of repo/algo.rs.
use elfshaker.Prelude.{
  ℕ, zero, suc, ◌+◌, ◌-◌, ◌/◌, ◌%◌, ◌≤◌, ◌≡◌, ◌≢◌, refl, ap, ◌∙◌, arith, List, [], ◌∷◌, ◌++◌, foldl,
  length, concat, All, append-nil, Bool-cases, leb, leb→le, inl, inr, max, min,
}
use elfshaker.Algo.{
  u64_mod, u32_mod, total_weight, fill, push_slice, slices, n_partitions, partition_bound,
  partition_by_u64,
}

module _ {ℓ} {A : Type ℓ} (eval : A → ℕ) where
  fill-append :
      (bound curr : ℕ) (xs : List A)
      → (fill eval bound curr xs).0 ++ (fill eval bound curr xs).1 ≡ xs
  unfolding fill
  fill-append bound curr [] = refl
  fill-append bound curr (x ∷ xs) = ground (arith, fill-append bound ((curr + eval x) % u64_mod) xs)

  concat-push_slice :
      (s : List A) (rest : List (List A)) → concat (push_slice s rest) ≡ s ++ concat rest
  unfolding push_slice
  concat-push_slice [] rest = refl
  concat-push_slice (x ∷ xs) rest = refl

  concat-slices : (rounds bound : ℕ) (xs : List A) → concat (slices eval rounds bound xs) ≡ xs
  unfolding slices
  concat-slices zero bound xs = concat-push_slice xs [] ∙ append-nil xs
  concat-slices (suc rounds) bound xs =
      concat-push_slice (fill eval bound 0 xs).0 (slices eval rounds bound (fill eval bound 0 xs).1)
      ∙ ap (λ r. (fill eval bound 0 xs).0 ++ r)
          (concat-slices rounds bound (fill eval bound 0 xs).1)
      ∙ fill-append bound 0 xs

  length-push_slice :
      (s : List A) (rest : List (List A)) → length (push_slice s rest) ≤ 1 + length rest
  unfolding push_slice
  length-push_slice [] rest = omega arith
  length-push_slice (x ∷ xs) rest = omega arith

  length-slices :
      (rounds bound : ℕ) (xs : List A) → length (slices eval rounds bound xs) ≤ rounds + 1
  unfolding slices
  length-slices zero bound xs = omega (arith, length-push_slice xs [])
  length-slices (suc rounds) bound xs = omega (
    arith,
    length-push_slice (fill eval bound 0 xs).0 (slices eval rounds bound (fill eval bound 0 xs).1),
    length-slices rounds bound (fill eval bound 0 xs).1,
  )

  fill_bound :
      (bound curr : ℕ) (xs : List A)
      → curr ≤ bound
      → foldl (λ s x. (s + eval x) % u64_mod) curr (fill eval bound curr xs).0 ≤ bound
  unfolding fill
  fill_bound bound curr [] h = h
  fill_bound bound curr (x ∷ xs) h = elim (Bool-cases (leb ((curr + eval x) % u64_mod) bound)) [
    | inl le ↦ rw le (fill_bound bound ((curr + eval x) % u64_mod) xs (leb→le _ _ le))
    | inr gt ↦ rw gt h
  ]

-- `P` of every element but the last
abbrev pub AllButLast {ℓ κ} : {A : Type ℓ} → (A → Type κ) → List A → Type κ
AllButLast P [] = Unit
AllButLast P (x ∷ []) = Unit
AllButLast P (x ∷ y ∷ ys) = P x × AllButLast P (y ∷ ys)

AllButLast-cons {ℓ κ} :
    {A : Type ℓ} (P : A → Type κ) (x : A) (ys : List A)
    → P x
    → AllButLast P ys
    → AllButLast P (x ∷ ys)
AllButLast-cons P x [] p h = tt
AllButLast-cons P x (y ∷ ys) p h = (p, h)

module _ {ℓ} {A : Type ℓ} (eval : A → ℕ) where
  push_slice-ne-nil :
      (s : List A) (rest : List (List A))
      → All (λ r. r ≢ []) rest
      → All (λ r. r ≢ []) (push_slice s rest)
  unfolding push_slice
  push_slice-ne-nil [] rest h = h
  push_slice-ne-nil (x ∷ xs) rest h = (λ e. cc, h)

  slices-ne-nil : (rounds bound : ℕ) (xs : List A) → All (λ r. r ≢ []) (slices eval rounds bound xs)
  unfolding slices
  slices-ne-nil zero bound xs = push_slice-ne-nil xs [] tt
  slices-ne-nil (suc rounds) bound xs =
      push_slice-ne-nil (fill eval bound 0 xs).0 (slices eval rounds bound (fill eval bound 0 xs).1)
        (slices-ne-nil rounds bound (fill eval bound 0 xs).1)

  push_slice-AllButLast :
      (P : List A → Type 0) (s : List A) (rest : List (List A))
      → P s
      → AllButLast P rest
      → AllButLast P (push_slice s rest)
  unfolding push_slice
  push_slice-AllButLast P [] rest p h = h
  push_slice-AllButLast P (x ∷ xs) rest p h = AllButLast-cons P (x ∷ xs) rest p h

  slices_bound :
      (rounds bound : ℕ) (xs : List A)
      → AllButLast (λ s. total_weight eval s ≤ bound) (slices eval rounds bound xs)
  unfolding slices total_weight
  slices_bound zero bound [] = tt
  slices_bound zero bound (x ∷ xs) = tt
  slices_bound (suc rounds) bound xs =
      push_slice-AllButLast (λ s. total_weight eval s ≤ bound) (fill eval bound 0 xs).0
        (slices eval rounds bound (fill eval bound 0 xs).1)
        (fill_bound eval bound 0 xs (omega arith))
        (slices_bound rounds bound (fill eval bound 0 xs).1)

  -- `partition_by_u64` cuts its input into non-empty slices that make up the input in order, and
  -- there are at most as many as asked for, or one where none was asked for.
  pub partition_by_u64_covers :
      (n : ℕ) (xs : List A)
      → (concat (partition_by_u64 eval n xs) ≡ xs)
        × All (λ s. s ≢ []) (partition_by_u64 eval n xs)
        × (length (partition_by_u64 eval n xs) ≤ max n 1)
  unfolding partition_by_u64 n_partitions
  partition_by_u64_covers n [] = (refl, tt, omega arith)
  partition_by_u64_covers n (x ∷ xs) =
      let rounds = n_partitions n (x ∷ xs) - 1 in
      let bound = partition_bound eval n (x ∷ xs) in
      (
        concat-slices eval rounds bound (x ∷ xs),
        slices-ne-nil rounds bound (x ∷ xs),
        omega (arith, length-slices eval rounds bound (x ∷ xs)),
      )

  -- Every slice but the last weighs at most the total divided by the number of slices aimed at, in
  -- the sums of wrapped 64-bit weights that the code makes.
  pub partition_by_u64_bound :
      (n : ℕ) (xs : List A)
      → AllButLast
          (λ s. total_weight eval s ≤ total_weight eval xs / max (min n (length xs % u32_mod)) 1)
          (partition_by_u64 eval n xs)
  unfolding partition_by_u64 partition_bound
  partition_by_u64_bound n [] = tt
  partition_by_u64_bound n (x ∷ xs) =
      slices_bound (n_partitions n (x ∷ xs) - 1) (partition_bound eval n (x ∷ xs)) (x ∷ xs)
