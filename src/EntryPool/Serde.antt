-- ===== src/EntryPool/Serde.antt =====
-- An entry pool is written as its entries, and read back by interning them in order.
use elfshaker.Prelude.{
  ℕ, ◌%◌, suc, ◌+◌, ◌≤◌, ◌≡◌, refl, ap, ◌∙◌, sym, arith, none, some, List, [], ◌∷◌, ◌++◌, length,
  length-append, get_elem?, append-nil, append_assoc, Bool-cases, Option-cases, Eq, ◌==◌, inl, inr,
  true, false, contains, All,
}
use elfshaker.HashSet.{IsDistinct}
use elfshaker.Algo.{u32_mod}
use elfshaker.EntryPool.{
  Handle, EntryPool, new, map_get, get, insert_new, get_or_insert, from_iter, deserialize, lookup,
  serialize,
}
use elfshaker.EntryPool.Interning.{
  IsInterned, new-IsInterned, get-insert_new, get_or_insert_fresh, get_or_insert_known,
  get_or_insert-IsInterned,
}

module _ {ℓ} {A : Type ℓ} ⦃e : Eq A⦄ where
  -- none of the elements is in the pool yet
  abbrev IsFresh : EntryPool A → List A → Type 0
  IsFresh pool = All (λ x. get pool x ≡ none)

  IsFresh-insert_new :
      (pool : EntryPool A) (a : A) (xs : List A)
      → contains xs a ≡ false
      → IsFresh pool xs
      → IsFresh (insert_new pool a).0 xs
  IsFresh-insert_new pool a [] h f = tt
  IsFresh-insert_new pool a (x ∷ xs) h (p, f) = (
    ground (arith, get-insert_new pool a x, e.beq_iff a x, e.beq_iff x a, h, p),
    IsFresh-insert_new pool a xs (ground (arith, h)) f,
  )

  new-IsFresh : (xs : List A) → IsFresh new xs
  unfolding get map_get
  new-IsFresh [] = tt
  new-IsFresh (x ∷ xs) = (refl, new-IsFresh xs)

  entries-insert_new :
      (pool : EntryPool A) (a : A) → (insert_new pool a).0.entries ≡ pool.entries ++ a ∷ []
  unfolding insert_new
  entries-insert_new pool a = refl

  entries-from_iter :
      (pool : EntryPool A) (xs : List A)
      → IsDistinct xs
      → IsFresh pool xs
      → (from_iter pool xs).entries ≡ pool.entries ++ xs
  unfolding from_iter
  entries-from_iter pool [] d f = sym (append-nil pool.entries)
  entries-from_iter pool (x ∷ xs) (h, d) (p, f) =
      rw (get_or_insert_fresh pool x p, from_iter)
        (entries-from_iter (insert_new pool x).0 xs d (IsFresh-insert_new pool x xs h f)
          ∙ rw entries-insert_new (append_assoc pool.entries (x ∷ []) xs))

  pub entries-from_iter-new : (xs : List A) → IsDistinct xs → (from_iter new xs).entries ≡ xs
  entries-from_iter-new xs d = entries-from_iter new xs d (new-IsFresh xs)

  -- an element that the pool has already leaves no entry
  entries-from_iter_known :
      (pool : EntryPool A) (front : List A) (p : A) (back : List A) (h : Handle)
      → get pool p ≡ some h
      → IsDistinct (front ++ back)
      → IsFresh pool (front ++ back)
      → (from_iter pool (front ++ p ∷ back)).entries ≡ pool.entries ++ (front ++ back)
  unfolding from_iter
  entries-from_iter_known pool [] p back h known d f =
      rw (get_or_insert_known pool p h known, from_iter) (entries-from_iter pool back d f)
  entries-from_iter_known pool (x ∷ front) p back h known (once, d) (q, f) =
      let other : (x == p) ≡ false = ground (arith, e.beq_iff x p, q, known) in
      let still : get (insert_new pool x).0 p ≡ some h =
        ground (arith, get-insert_new pool x p, other, known) in
      rw (get_or_insert_fresh pool x q, from_iter)
        (entries-from_iter_known (insert_new pool x).0 front p back h still d
            (IsFresh-insert_new pool x (front ++ back) once f)
          ∙ rw entries-insert_new (append_assoc pool.entries (x ∷ []) (front ++ back)))

  entries-from_iter_repeated :
      (pool : EntryPool A) (front : List A) (p : A) (back : List A)
      → contains front p ≡ true
      → IsDistinct (front ++ back)
      → IsFresh pool (front ++ back)
      → (from_iter pool (front ++ p ∷ back)).entries ≡ pool.entries ++ (front ++ back)
  unfolding from_iter
  entries-from_iter_repeated pool [] p back there d f = cc
  entries-from_iter_repeated pool (x ∷ front) p back there (once, d) (q, f) =
      let fresh = IsFresh-insert_new pool x (front ++ back) once f in
      let append : (insert_new pool x).0.entries ++ (front ++ back)
          ≡ pool.entries ++ x ∷ (front ++ back) =
        rw entries-insert_new (append_assoc pool.entries (x ∷ []) (front ++ back)) in
      rw (get_or_insert_fresh pool x q, from_iter)
        (elim (Bool-cases (x == p)) [
          | inl same ↦
              let known : get (insert_new pool x).0 p ≡ some (length pool.entries % u32_mod) =
                ground (arith, get-insert_new pool x p, same) in
              entries-from_iter_known (insert_new pool x).0 front p back
                (length pool.entries % u32_mod) known d fresh
              ∙ append
          | inr other ↦
              entries-from_iter_repeated (insert_new pool x).0 front p back
                (ground (arith, there, other)) d fresh
              ∙ append
        ])

  pub entries-from_iter-new_repeated :
      (front : List A) (p : A) (back : List A)
      → contains front p ≡ true
      → IsDistinct (front ++ back)
      → (from_iter new (front ++ p ∷ back)).entries ≡ front ++ back
  entries-from_iter-new_repeated front p back there d =
      entries-from_iter_repeated new front p back there d (new-IsFresh (front ++ back))

  -- Reading back a list without repetitions restores it.
  pub entries-deserialize : (xs : List A) → IsDistinct xs → (deserialize xs).entries ≡ xs
  unfolding deserialize
  entries-deserialize xs d = entries-from_iter new xs d (new-IsFresh xs)

  length-get_or_insert :
      (pool : EntryPool A) (a : A)
      → length (get_or_insert pool a).0.entries ≤ length pool.entries + 1
  unfolding get_or_insert insert_new
  length-get_or_insert pool a = ground (arith, length-append pool.entries (a ∷ []))

  from_iter-IsInterned :
      (pool : EntryPool A) (xs : List A)
      → IsInterned pool
      → length pool.entries + length xs ≤ u32_mod
      → IsInterned (from_iter pool xs)
  unfolding from_iter
  from_iter-IsInterned pool [] v fits = v
  from_iter-IsInterned pool (x ∷ xs) v fits =
      from_iter-IsInterned (get_or_insert pool x).0 xs
        (get_or_insert-IsInterned pool x v (omega arith))
        (omega (arith, length-get_or_insert pool x))

  pub deserialize-IsInterned : (xs : List A) → length xs ≤ u32_mod → IsInterned (deserialize xs)
  unfolding deserialize
  deserialize-IsInterned xs fits = from_iter-IsInterned new xs new-IsInterned (omega arith)

  contains→index :
      (xs : List A) (a : A) → contains xs a ≡ true → (i : ℕ) × (get_elem? xs i ≡ some a)
  contains→index [] a h = cc
  contains→index (x ∷ xs) a h = elim (Bool-cases (x == a)) [
    | inl same ↦ (0, ap some ((e.beq_iff x a).0 same))
    | inr other ↦ let (i, p) = contains→index xs a (ground (arith, other, h)) in (suc i, p)
  ]

  IsDistinct-of-injective :
      (xs : List A)
      → ((i j : ℕ) (a : A) → get_elem? xs i ≡ some a → get_elem? xs j ≡ some a → i ≡ j)
      → IsDistinct xs
  IsDistinct-of-injective [] inj = tt
  IsDistinct-of-injective (x ∷ xs) inj = (
    elim (Bool-cases (contains xs x)) [
      | inl twice ↦
          let (i, p) = contains→index xs x twice in absurd (omega (arith, inj 0 (suc i) x refl p))
      | inr once ↦ once
    ],
    IsDistinct-of-injective xs (λ i j a p q. omega (arith, inj (suc i) (suc j) a p q)),
  )

  -- in an interned pool no entry stands twice
  pub IsInterned-IsDistinct : (pool : EntryPool A) → IsInterned pool → IsDistinct pool.entries
  unfolding lookup
  IsInterned-IsDistinct pool v =
      IsDistinct-of-injective pool.entries (λ i j a p q. cc (v.interned a i p, v.interned a j q))

  pub entries-deserialize-serialize :
      (pool : EntryPool A) → IsInterned pool → (deserialize (serialize pool)).entries ≡ pool.entries
  unfolding serialize
  entries-deserialize-serialize pool v =
      entries-deserialize pool.entries (IsInterned-IsDistinct pool v)

  -- `get` of an interned pool is decided by `lookup`
  get-agree :
      (p q : EntryPool A)
      → IsInterned p
      → IsInterned q
      → p.entries ≡ q.entries
      → (a : A) → get p a ≡ get q a
  unfolding lookup
  get-agree p q vp vq same a = elim (Option-cases (get p a)) [
    | inl none_p ↦ elim (Option-cases (get q a)) [
      | inl none_q ↦ cc
      | inr (h, some_q) ↦
          cc (vp.interned a h (ap (λ es. get_elem? es h) same ∙ vq.found a h some_q))
    ]
    | inr (h, some_p) ↦
        some_p ∙ sym (vq.interned a h (ap (λ es. get_elem? es h) (sym same) ∙ vp.found a h some_p))
  ]

  -- An interned pool of at most 2^32 entries that is written and read back has the same entries
  -- under the same handles, answers every `get` as before, and is interned.
  pub deserialize-serialize :
      (pool : EntryPool A)
      → IsInterned pool
      → length pool.entries ≤ u32_mod
      → ((h : Handle) → lookup (deserialize (serialize pool)) h ≡ lookup pool h)
        × ((a : A) → get (deserialize (serialize pool)) a ≡ get pool a)
        × IsInterned (deserialize (serialize pool))
  unfolding lookup serialize
  deserialize-serialize pool v fits =
      let same = entries-deserialize pool.entries (IsInterned-IsDistinct pool v) in
      let v' = deserialize-IsInterned pool.entries fits in
      (λ h. ap (λ es. get_elem? es h) same, get-agree (deserialize pool.entries) pool v' v same, v')
