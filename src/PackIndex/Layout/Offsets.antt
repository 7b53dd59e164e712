-- ===== src/PackIndex/Layout/Offsets.antt =====
-- The offsets of packidx.rs `compute_object_offsets_and_ordering`: one object behind the other.
use elfshaker.Prelude.{
  ℕ, ◌+◌, ◌%◌, ◌<◌, ◌≡◌, ◌≢◌, refl, ap, sym, ◌∙◌, arith, some, List, [], ◌∷◌, eqb, if◌then◌else◌,
  returns, All, AllPairs, sort, insert_sorted, Bool-cases, inl, inr,
}
use elfshaker.Algo.{u64_mod}
use elfshaker.BTreeMap
use elfshaker.BTreeMap.{IsDense}
use elfshaker.EntryPool.{Handle}
use elfshaker.PackIndex.Types.{ObjectMetadata}
use elfshaker.PackIndex.Layout.{pair_le, set_offset, set_offsets}

abbrev pub Table : Type 0
Table = List (Handle × ObjectMetadata)

-- the bytes of all objects
unfoldable pub total_size : List (ℕ × Handle) → ℕ
total_size [] = 0
total_size (p ∷ ps) = p.0 + total_size ps

-- The objects stand one behind the other from an offset on, with their sizes.
abbrev pub LaidOut : ℕ → List (ℕ × Handle) → Table → Type 0
LaidOut offset [] table = Unit
LaidOut offset (p ∷ ps) table =
    (BTreeMap.get p.1 table ≡ some (record { offset = offset; size = p.0 }))
    × LaidOut (offset + p.0) ps table

abbrev pub OtherHandle : ℕ × Handle → ℕ × Handle → Type 0
OtherHandle p q = p.1 ≢ q.1

abbrev pub HasSize : Table → ℕ × Handle → Type 0
HasSize table p = (om : ObjectMetadata) × (BTreeMap.get p.1 table ≡ some om) × (om.size ≡ p.0)

set_offset-get :
    (h o : ℕ) (om : ObjectMetadata) (table : Table)
    → BTreeMap.get h table ≡ some om
    → (table' : Table) × (set_offset h o table ≡ some table')
      × ((j : ℕ)
          → BTreeMap.get j table' ≡ (
              if eqb h j
              then some (record { offset = o; size = om.size })
              else BTreeMap.get j table))
unfolding set_offset BTreeMap.get
set_offset-get h o om [] p = cc
set_offset-get h o om ((k, m) ∷ rest) p = elim (Bool-cases (eqb k h)) [
  | inl here ↦
      let same : m ≡ om = ground (arith, here, p) in
      (
        (k, record { offset = o; size = m.size }) ∷ rest,
        rw (here, set_offset) refl,
        λ j. rw (← same) (ground (arith, here)),
      )
  | inr later ↦
      let (rest', eq, at) = set_offset-get h o om rest (ground (arith, later, p)) in
      ((k, m) ∷ rest', rw (later, eq, set_offset) refl, λ j. ground (arith, at j, later))
]

HasSize-set_offset :
    (table table' : Table) (h o : ℕ) (om : ObjectMetadata) (ps : List (ℕ × Handle))
    → ((j : ℕ)
        → BTreeMap.get j table' ≡ (
            if eqb h j then some (record { offset = o; size = om.size }) else BTreeMap.get j table))
    → All (λ p. h ≢ p.1) ps
    → All (HasSize table) ps
    → All (HasSize table') ps
HasSize-set_offset table table' h o om [] at ne s = tt
HasSize-set_offset table table' h o om (p ∷ ps) at (n, ne) ((m, q, size), s) =
    ((m, at p.1 ∙ ground (arith, n, q), size), HasSize-set_offset table table' h o om ps at ne s)

All-flip :
    (p : ℕ × Handle) (ps : List (ℕ × Handle)) → All (OtherHandle p) ps → All (λ q. q.1 ≢ p.1) ps
All-flip p [] h = tt
All-flip p (q ∷ ps) (h, hs) = (λ e. h (sym e), All-flip p ps hs)

set_offsets-cons :
    (offset : ℕ) (p : ℕ × Handle) (ps : List (ℕ × Handle)) (table mid : Table)
    → set_offset p.1 offset table ≡ some mid
    → set_offsets offset (p ∷ ps) table ≡ set_offsets ((offset + p.0) % u64_mod) ps mid
unfolding set_offsets
set_offsets-cons offset p ps table mid h = rw h refl

pub set_offsets-LaidOut :
    (offset : ℕ) (ps : List (ℕ × Handle)) (table : Table)
    → AllPairs OtherHandle ps
    → All (HasSize table) ps
    → offset + total_size ps < u64_mod
    → (table' : Table) × (set_offsets offset ps table ≡ returns table')
      × LaidOut offset ps table'
      × ((j : ℕ) → All (λ p. p.1 ≢ j) ps → BTreeMap.get j table' ≡ BTreeMap.get j table)
unfolding set_offsets total_size
set_offsets-LaidOut offset [] table d s fits = (table, refl, tt, λ j h. refl)
set_offsets-LaidOut offset (p ∷ ps) table (n, d) ((om, q, size), s) fits =
    let (mid, eq, at) = set_offset-get p.1 offset om table q in
    let low : (offset + p.0) % u64_mod ≡ offset + p.0 = omega arith in
    let (table', eq', out, other) =
      set_offsets-LaidOut (offset + p.0) ps mid d
        (HasSize-set_offset table mid p.1 offset om ps at n s) (omega arith) in
    (
      table',
      set_offsets-cons offset p ps table mid eq ∙ ap (λ o. set_offsets o ps mid) low ∙ eq',
      (other p.1 (All-flip p ps n) ∙ at p.1 ∙ ground (arith, size), out),
      λ j (ne, nes). other j nes ∙ at j ∙ ground (arith, ne),
    )

total_size-insert_sorted :
    (p : ℕ × Handle) (ps : List (ℕ × Handle))
    → total_size (insert_sorted pair_le p ps) ≡ p.0 + total_size ps
unfolding total_size
total_size-insert_sorted p [] = refl
total_size-insert_sorted p (q ∷ ps) = ground (arith, total_size-insert_sorted p ps)

pub total_size-sort : (ps : List (ℕ × Handle)) → total_size (sort pair_le ps) ≡ total_size ps
unfolding total_size
total_size-sort [] = refl
total_size-sort (p ∷ ps) =
    total_size-insert_sorted p (sort pair_le ps) ∙ ap (λ n. p.0 + n) (total_size-sort ps)
