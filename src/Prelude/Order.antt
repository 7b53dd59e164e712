-- ===== src/Prelude/Order.antt =====
-- Total orders as Boolean tests, the lexicographic order of lists, and insertion sort.
use mathlib.Core.Path.{◌≡◌, refl}
use mathlib.Core.Bool.{Bool, true, false}
use mathlib.Core.List.{List, [], ◌∷◌}
use mathlib.Core.Logic.{inl, inr}
use native.Mathlib.Omega.{arith}
use elfshaker.Prelude.Tests.{leb, if◌then◌else◌, Bool-cases}
use elfshaker.Prelude.Equality.{Eq, ◌==◌, list_eq, nat_eq}
use elfshaker.Prelude.Lists.{All, AllPairs}

pub record IsTotalOrder {ℓ} {A : Type ℓ} (le : A → A → Bool) : Type ℓ where
  pub antisym : (a b : A) → le a b ≡ true → le b a ≡ true → a ≡ b
  pub trans : (a b c : A) → le a b ≡ true → le b c ≡ true → le a c ≡ true
  pub total : (a b : A) → le a b ≡ false → le b a ≡ true

pub leb-IsTotalOrder : IsTotalOrder leb
leb-IsTotalOrder = record {
  antisym = λ a b h k. ground arith;
  trans = λ a b c h k. ground arith;
  total = λ a b h. ground arith;
}

module _ {ℓ} {A : Type ℓ} ⦃e : Eq A⦄ where
  abbrev pub lex : (A → A → Bool) → List A → List A → Bool
  lex le [] ys = true
  lex le (x ∷ xs) [] = false
  lex le (x ∷ xs) (y ∷ ys) = if x == y then lex le xs ys else le x y

  module _ (le : A → A → Bool) (o : IsTotalOrder le) where
    lex_antisym : (xs ys : List A) → lex le xs ys ≡ true → lex le ys xs ≡ true → xs ≡ ys
    lex_antisym [] [] h k = refl
    lex_antisym [] (y ∷ ys) h k = cc
    lex_antisym (x ∷ xs) [] h k = cc
    lex_antisym (x ∷ xs) (y ∷ ys) h k =
        ground (arith, e.beq_iff x y, e.beq_iff y x, o.antisym x y, lex_antisym xs ys)

    lex_trans :
        (xs ys zs : List A) → lex le xs ys ≡ true → lex le ys zs ≡ true → lex le xs zs ≡ true
    lex_trans [] ys zs h k = refl
    lex_trans (x ∷ xs) [] zs h k = cc
    lex_trans (x ∷ xs) (y ∷ ys) [] h k = cc
    lex_trans (x ∷ xs) (y ∷ ys) (z ∷ zs) h k = ground (
      arith,
      e.beq_iff x y,
      e.beq_iff y z,
      e.beq_iff x z,
      o.antisym x y,
      o.trans x y z,
      lex_trans xs ys zs,
    )

    lex_total : (xs ys : List A) → lex le xs ys ≡ false → lex le ys xs ≡ true
    lex_total [] ys h = cc
    lex_total (x ∷ xs) [] h = refl
    lex_total (x ∷ xs) (y ∷ ys) h =
        ground (arith, e.beq_iff x y, e.beq_iff y x, o.total x y, lex_total xs ys)

    pub lex-IsTotalOrder : IsTotalOrder (lex le)
    lex-IsTotalOrder = record { antisym = lex_antisym; trans = lex_trans; total = lex_total }

-- `sort`, `sort_by`, `sort_unstable_by`: equal elements keep their order.
module _ {ℓ} {A : Type ℓ} (le : A → A → Bool) where
  abbrev pub insert_sorted : A → List A → List A
  insert_sorted x [] = x ∷ []
  insert_sorted x (y ∷ ys) =
      let rest = insert_sorted x ys in if le x y then x ∷ y ∷ ys else y ∷ rest

  abbrev pub sort : List A → List A
  sort [] = []
  sort (x ∷ xs) = insert_sorted x (sort xs)

  abbrev pub IsSorted : List A → Type 0
  IsSorted [] = Unit
  IsSorted (x ∷ xs) = All (λ y. le x y ≡ true) xs × IsSorted xs

  pub All-insert_sorted {κ} :
      (P : A → Type κ) (x : A) (xs : List A) → P x → All P xs → All P (insert_sorted x xs)
  All-insert_sorted P x [] p h = (p, tt)
  All-insert_sorted P x (y ∷ ys) p (q, h) = elim (Bool-cases (le x y)) [
    | inl low ↦ rw low (p, (q, h))
    | inr high ↦ rw high (q, All-insert_sorted P x ys p h)
  ]

  pub All-sort {κ} : (P : A → Type κ) (xs : List A) → All P xs → All P (sort xs)
  All-sort P [] h = tt
  All-sort P (x ∷ xs) (p, h) = All-insert_sorted P x (sort xs) p (All-sort P xs h)

  pub All-of-insert_sorted {κ} :
      (P : A → Type κ) (x : A) (xs : List A) → All P (insert_sorted x xs) → P x × All P xs
  All-of-insert_sorted P x [] (p, h) = (p, tt)
  All-of-insert_sorted P x (y ∷ ys) h = elim (Bool-cases (le x y)) [
    | inl low ↦ rw low at h
    | inr high ↦
        let (q, rest) = rw high at h in
        let (p, h') = All-of-insert_sorted P x ys rest in (p, (q, h'))
  ]

  pub All-of-sort {κ} : (P : A → Type κ) (xs : List A) → All P (sort xs) → All P xs
  All-of-sort P [] h = tt
  All-of-sort P (x ∷ xs) h =
      let (p, h') = All-of-insert_sorted P x (sort xs) h in (p, All-of-sort P xs h')

  module _ {κ} (R : A → A → Type κ) (symm : (a b : A) → R a b → R b a) where
    AllPairs-of-insert_sorted :
        (x : A) (xs : List A) → AllPairs R (insert_sorted x xs) → All (R x) xs × AllPairs R xs
    AllPairs-of-insert_sorted x [] h = (tt, tt)
    AllPairs-of-insert_sorted x (y ∷ ys) h = elim (Bool-cases (le x y)) [
      | inl low ↦ rw low at h
      | inr high ↦
          let (below, rest) = rw high at h in
          let (r, below') = All-of-insert_sorted (R y) x ys below in
          let (a, p) = AllPairs-of-insert_sorted x ys rest in ((symm y x r, a), (below', p))
    ]

    AllPairs-insert_sorted :
        (x : A) (xs : List A) → All (R x) xs → AllPairs R xs → AllPairs R (insert_sorted x xs)
    AllPairs-insert_sorted x [] a p = (tt, tt)
    AllPairs-insert_sorted x (y ∷ ys) (r, a) (b, p) = elim (Bool-cases (le x y)) [
      | inl low ↦ rw low ((r, a), (b, p))
      | inr high ↦
          rw high (All-insert_sorted (R y) x ys (symm x y r) b, AllPairs-insert_sorted x ys a p)
    ]

    pub AllPairs-sort : (xs : List A) → AllPairs R xs → AllPairs R (sort xs)
    AllPairs-sort [] h = tt
    AllPairs-sort (x ∷ xs) (a, p) =
        AllPairs-insert_sorted x (sort xs) (All-sort (R x) xs a) (AllPairs-sort xs p)

    -- A symmetric relation between all places of the sorted list holds in the list itself.
    pub AllPairs-of-sort : (xs : List A) → AllPairs R (sort xs) → AllPairs R xs
    AllPairs-of-sort [] h = tt
    AllPairs-of-sort (x ∷ xs) h =
        let (a, p) = AllPairs-of-insert_sorted x (sort xs) h in
        (All-of-sort (R x) xs a, AllPairs-of-sort xs p)

  module _ (trans : (a b c : A) → le a b ≡ true → le b c ≡ true → le a c ≡ true)
      (total : (a b : A) → le a b ≡ false → le b a ≡ true) where
    below-All :
        (x y : A) (ys : List A)
        → le x y ≡ true
        → All (λ z. le y z ≡ true) ys
        → All (λ z. le x z ≡ true) ys
    below-All x y [] p h = tt
    below-All x y (z ∷ zs) p (q, h) = (trans x y z p q, below-All x y zs p h)

    insert_sorted-IsSorted : (x : A) (xs : List A) → IsSorted xs → IsSorted (insert_sorted x xs)
    insert_sorted-IsSorted x [] h = (tt, tt)
    insert_sorted-IsSorted x (y ∷ ys) (b, h) = elim (Bool-cases (le x y)) [
      | inl low ↦ rw low ((low, below-All x y ys low b), (b, h))
      | inr high ↦ rw high (
        All-insert_sorted (λ z. le y z ≡ true) x ys (total x y high) b,
        insert_sorted-IsSorted x ys h,
      )
    ]

    pub sort-IsSorted : (xs : List A) → IsSorted (sort xs)
    sort-IsSorted [] = tt
    sort-IsSorted (x ∷ xs) = insert_sorted-IsSorted x (sort xs) (sort-IsSorted xs)
