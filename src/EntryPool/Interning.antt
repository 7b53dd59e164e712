-- ===== src/EntryPool/Interning.antt =====
-- The two tables of an entry pool agree, and handles stay valid.
use elfshaker.Prelude.{
  ℕ, zero, suc, ◌%◌, ◌<◌, ◌≡◌, refl, ap, ◌∙◌, arith, none, some, List, [], ◌∷◌, ◌++◌, length,
  get_elem?, get_elem?-append_left, get_elem?-length_append, Bool-cases, Option-cases, Eq, ◌==◌,
  ◌≤◌, length-append, eqb, ==_refl, inl, inr, if◌then◌else◌, ◌⊎◌,
}
use elfshaker.Algo.{u32_mod}
use elfshaker.EntryPool.{Handle, EntryPool, new, map_get, get, insert_new, get_or_insert, lookup}

module _ {ℓ} {A : Type ℓ} ⦃e : Eq A⦄ where
  -- `get` and `lookup` are inverse to one another.
  pub record IsInterned (pool : EntryPool A) : Type ℓ where
    pub found : (a : A) (h : Handle) → get pool a ≡ some h → lookup pool h ≡ some a
    pub interned : (a : A) (h : Handle) → lookup pool h ≡ some a → get pool a ≡ some h

  pub new-IsInterned : IsInterned (new {A = A})
  unfolding get map_get lookup
  new-IsInterned = record { found = λ a h p. cc; interned = λ a h p. cc }

  pub get-insert_new :
      (pool : EntryPool A) (a b : A)
      → get (insert_new pool a).0 b
        ≡ (if a == b then some (length pool.entries % u32_mod) else get pool b)
  unfolding get map_get insert_new
  get-insert_new pool a b = refl

  get_elem?-append_one :
      (xs : List A) (y : A) (i : ℕ) (a : A)
      → get_elem? (xs ++ y ∷ []) i ≡ some a
      → (get_elem? xs i ≡ some a) ⊎ ((i ≡ length xs) × (y ≡ a))
  get_elem?-append_one [] y zero a h = inr (refl, ground arith)
  get_elem?-append_one [] y (suc i) a h = cc
  get_elem?-append_one (x ∷ xs) y zero a h = inl h
  get_elem?-append_one (x ∷ xs) y (suc i) a h = elim (get_elem?-append_one xs y i a h) [
    | inl p ↦ inl p
    | inr (p, q) ↦ inr (ap suc p, q)
  ]

  pub get_elem?-lt_length : (xs : List A) (i : ℕ) (a : A) → get_elem? xs i ≡ some a → i < length xs
  get_elem?-lt_length [] i a h = cc
  get_elem?-lt_length (x ∷ xs) zero a h = omega arith
  get_elem?-lt_length (x ∷ xs) (suc i) a h = omega (arith, get_elem?-lt_length xs i a h)

  module _ (pool : EntryPool A) (a : A) (fits : length pool.entries < u32_mod) where
    lookup-insert_new_self : lookup (insert_new pool a).0 (length pool.entries % u32_mod) ≡ some a
    unfolding lookup insert_new
    lookup-insert_new_self =
        let low : length pool.entries % u32_mod ≡ length pool.entries = omega arith in
        rw low (get_elem?-length_append pool.entries a [])

    lookup-insert_new :
        (b : A) (h : Handle) → lookup pool h ≡ some b → lookup (insert_new pool a).0 h ≡ some b
    unfolding lookup insert_new
    lookup-insert_new b h p =
        get_elem?-append_left pool.entries (a ∷ []) h (get_elem?-lt_length pool.entries h b p) ∙ p

    insert_new-found :
        IsInterned pool
        → (b : A) (h : Handle) → get (insert_new pool a).0 b ≡ some h
        → lookup (insert_new pool a).0 h ≡ some b
    insert_new-found v b h p = elim (Bool-cases (a == b)) [
      | inl same ↦
          ground (arith, same, get-insert_new pool a b, lookup-insert_new_self, e.beq_iff a b, p)
      | inr other ↦
          lookup-insert_new b h (v.found b h (ground (arith, other, get-insert_new pool a b, p)))
    ]

    insert_new-interned :
        IsInterned pool
        → get pool a ≡ none
        → (b : A) (h : Handle) → lookup (insert_new pool a).0 h ≡ some b
        → get (insert_new pool a).0 b ≡ some h
    unfolding lookup insert_new
    insert_new-interned v absent b h p = elim (get_elem?-append_one pool.entries a h b p) [
      | inl old ↦ ground (arith, v.interned b h old, absent, get-insert_new pool a b, e.beq_iff a b)
      | inr (at_end, same) ↦ ground (arith, at_end, same, get-insert_new pool a b, e.beq_iff a b)
    ]

  pub get_or_insert_known :
      (pool : EntryPool A) (a : A) (h : Handle)
      → get pool a ≡ some h
      → get_or_insert pool a ≡ (pool, h)
  unfolding get_or_insert
  get_or_insert_known pool a h p = rw (p, get_or_insert)

  pub get_or_insert_fresh :
      (pool : EntryPool A) (a : A) → get pool a ≡ none → get_or_insert pool a ≡ insert_new pool a
  unfolding get_or_insert
  get_or_insert_fresh pool a p = rw (p, get_or_insert)

  -- Interning keeps the two tables inverse to one another while the pool has room for a handle.
  pub get_or_insert-IsInterned :
      (pool : EntryPool A) (a : A)
      → IsInterned pool
      → length pool.entries < u32_mod
      → IsInterned (get_or_insert pool a).0
  get_or_insert-IsInterned pool a v fits = elim (Option-cases (get pool a)) [
    | inl absent ↦ rw (get_or_insert_fresh pool a absent) (record {
      found = insert_new-found pool a fits v;
      interned = insert_new-interned pool a fits v absent;
    })
    | inr (h, p) ↦ rw (get_or_insert_known pool a h p) v
  ]

  -- In an interned pool with room for a handle, the handle that is returned denotes the value, and
  -- is what `get` answers, and every handle given out before still denotes what it did.
  pub get_or_insert-lookup :
      (pool : EntryPool A) (a : A)
      → IsInterned pool
      → length pool.entries < u32_mod
      → (lookup (get_or_insert pool a).0 (get_or_insert pool a).1 ≡ some a)
        × (get (get_or_insert pool a).0 a ≡ some (get_or_insert pool a).1)
        × ((b : A) (h : Handle)
            → lookup pool h ≡ some b
            → lookup (get_or_insert pool a).0 h ≡ some b)
  unfolding insert_new
  get_or_insert-lookup pool a v fits = elim (Option-cases (get pool a)) [
    | inl absent ↦ rw (get_or_insert_fresh pool a absent) (
      lookup-insert_new_self pool a fits,
      get-insert_new pool a a ∙ rw ==_refl,
      lookup-insert_new pool a fits,
    )
    | inr (h, p) ↦ rw (get_or_insert_known pool a h p) (v.found a h p, p, λ b k q. q)
  ]

  -- The handle is in the pool or the next one, and then the pool has grown by one.
  pub get_or_insert_grows :
      (pool : EntryPool A) (a : A)
      → IsInterned pool
      → length pool.entries < u32_mod
      → ((get_or_insert pool a).1 ≤ length pool.entries)
        × (length (get_or_insert pool a).0.entries ≡ (
            if eqb (get_or_insert pool a).1 (length pool.entries)
            then suc (length pool.entries)
            else length pool.entries))
  unfolding insert_new lookup
  get_or_insert_grows pool a v fits = elim (Option-cases (get pool a)) [
    | inl absent ↦
        rw (get_or_insert_fresh pool a absent)
          (omega arith, ground (arith, length-append pool.entries (a ∷ [])))
    | inr (h, p) ↦
        let low = get_elem?-lt_length pool.entries h a (v.found a h p) in
        rw (get_or_insert_known pool a h p) (omega (arith, low), ground (arith, low))
  ]
