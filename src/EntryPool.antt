-- ===== src/EntryPool.antt =====
-- entrypool.rs: values interned under handles.
pub mod Interning
pub mod Serde
use elfshaker.Prelude.{
  ℕ, ◌+◌, ◌%◌, ◌^◌, Option, none, some, List, [], ◌∷◌, ◌++◌, length, get_elem?, Eq, ◌==◌,
  if◌then◌else◌,
}
use elfshaker.Algo.{u32_mod}

abbrev pub Handle : Type 0
Handle = ℕ

-- `entry_map` is a `HashMap`: the pair that was inserted last decides.
pub record EntryPool {ℓ} (A : Type ℓ) : Type ℓ where
  pub entries : List A
  pub entry_map : List (A × Handle)

abbrev pub new {ℓ} : {A : Type ℓ} → EntryPool A
new = record { entries = []; entry_map = [] }

module _ {ℓ} {A : Type ℓ} ⦃e : Eq A⦄ where
  unfoldable pub map_get : A → List (A × Handle) → Option Handle
  map_get k [] = none
  map_get k ((a, h) ∷ rest) = if a == k then some h else map_get k rest

  unfoldable pub get : EntryPool A → A → Option Handle
  unfolding map_get
  get pool k = map_get k pool.entry_map

  -- `self.entries.len() as Handle` keeps the low 32 bits
  unfoldable pub insert_new : EntryPool A → A → EntryPool A × Handle
  insert_new pool p =
      let handle = length pool.entries % u32_mod in
      (
        record { entries = pool.entries ++ p ∷ []; entry_map = (p, handle) ∷ pool.entry_map },
        handle,
      )

  unfoldable pub get_or_insert : EntryPool A → A → EntryPool A × Handle
  unfolding get insert_new
  get_or_insert pool p = elim (get pool p) [
    | some handle ↦ (pool, handle)
    | none ↦ insert_new pool p
  ]

  unfoldable pub from_iter : EntryPool A → List A → EntryPool A
  unfolding get_or_insert
  from_iter pool [] = pool
  from_iter pool (x ∷ xs) = from_iter (get_or_insert pool x).0 xs

  -- `visit_seq`: the elements of the list are interned one by one
  unfoldable pub deserialize : List A → EntryPool A
  unfolding from_iter
  deserialize elements = from_iter new elements

module _ {ℓ} {A : Type ℓ} where
  unfoldable pub lookup : EntryPool A → Handle → Option A
  lookup pool h = get_elem? pool.entries h

  pub serialize : EntryPool A → List A
  serialize pool = pool.entries
