-- ===== src/PackIndex/Layout/Handles.antt =====
-- The sizes and handles that packidx.rs takes from the table of objects.
use elfshaker.Prelude.{
  ℕ, suc, ◌≤◌, ◌≡◌, refl, arith, some, List, [], ◌∷◌, eqb, get_elem?, subst, All, AllPairs,
  Bool-cases, inl, inr,
}
use elfshaker.BTreeMap
use elfshaker.BTreeMap.{IsDense}
use elfshaker.EntryPool.{Handle}
use elfshaker.PackIndex.Types.{ObjectMetadata}
use elfshaker.PackIndex.Layout.{size_handle}
use elfshaker.PackIndex.Layout.Offsets.{Table, OtherHandle, HasSize}

-- the pairs of a table whose keys are k, k + 1, …
size_handle-above :
    (k : ℕ) (table : Table) → IsDense k table → All (λ p. k ≤ p.1) (size_handle table)
unfolding size_handle
size_handle-above k [] d = tt
size_handle-above k ((j, om) ∷ table) (e, d) =
    (omega arith, weaken (size_handle table) (size_handle-above (suc k) table d))
  where
    weaken : (ps : List (ℕ × Handle)) → All (λ p. suc k ≤ p.1) ps → All (λ p. k ≤ p.1) ps
    weaken [] h = tt
    weaken (p ∷ ps) (h, hs) = (omega arith, weaken ps hs)

above-OtherHandle :
    (k size : ℕ) (ps : List (ℕ × Handle))
    → All (λ p. suc k ≤ p.1) ps
    → All (OtherHandle (size, k)) ps
above-OtherHandle k size [] h = tt
above-OtherHandle k size (p ∷ ps) (h, hs) = (λ e. omega arith, above-OtherHandle k size ps hs)

pub size_handle-AllPairs :
    (k : ℕ) (table : Table) → IsDense k table → AllPairs OtherHandle (size_handle table)
unfolding size_handle
size_handle-AllPairs k [] d = tt
size_handle-AllPairs k ((j, om) ∷ table) (e, d) = (
  above-OtherHandle j om.size (size_handle table) (rw e (size_handle-above (suc k) table d)),
  size_handle-AllPairs (suc k) table d,
)

HasSize-cons :
    (k : ℕ) (om : ObjectMetadata) (table : Table) (ps : List (ℕ × Handle))
    → All (λ p. suc k ≤ p.1) ps
    → All (HasSize table) ps
    → All (HasSize ((k, om) ∷ table)) ps
unfolding BTreeMap.get
HasSize-cons k om table [] above h = tt
HasSize-cons k om table (p ∷ ps) (a, above) ((m, q, size), h) =
    ((m, ground (arith, q), size), HasSize-cons k om table ps above h)

pub size_handle-HasSize :
    (k : ℕ) (table : Table) → IsDense k table → All (HasSize table) (size_handle table)
unfolding size_handle BTreeMap.get
size_handle-HasSize k [] d = tt
size_handle-HasSize k ((j, om) ∷ table) (e, d) = (
  (om, ground arith, refl),
  HasSize-cons j om table (size_handle table) (rw e (size_handle-above (suc k) table d))
      (size_handle-HasSize (suc k) table d),
)

unfoldable pub Stands : List (ℕ × Handle) → ℕ × Handle → Type 0
Stands ps p = (i : ℕ) × (get_elem? ps i ≡ some p)

Stands-cons :
    (q : ℕ × Handle) (all ps : List (ℕ × Handle)) → All (Stands all) ps → All (Stands (q ∷ all)) ps
unfolding Stands
Stands-cons q all [] h = tt
Stands-cons q all (p ∷ ps) ((i, at), h) = ((suc i, at), Stands-cons q all ps h)

pub Stands-self : (ps : List (ℕ × Handle)) → All (Stands ps) ps
unfolding Stands
Stands-self [] = tt
Stands-self (p ∷ ps) = ((0, refl), Stands-cons p ps ps (Stands-self ps))

pub size_handle-get :
    (P : ℕ × Handle → Type 0) (h : Handle) (om : ObjectMetadata) (table : Table)
    → All P (size_handle table)
    → BTreeMap.get h table ≡ some om
    → P (om.size, h)
unfolding size_handle BTreeMap.get
size_handle-get P h om [] a p = cc
size_handle-get P h om ((j, m) ∷ table) (a, as_) p = elim (Bool-cases (eqb j h)) [
  | inl here ↦
      let same : m ≡ om = ground (arith, here, p) in
      let key : j ≡ h = ground (arith, here) in
      subst (λ k. P (om.size, k)) key (subst (λ (o : ObjectMetadata). P (o.size, j)) same a)
  | inr later ↦ size_handle-get P h om table as_ (ground (arith, later, p))
]
