-- ===== src/PackIndex/Layout/Apart.antt =====
-- The objects of a new pack, laid out by packidx.rs, are such as the reader of repo/pack.rs needs.
use elfshaker.Prelude.{
  ℕ, suc, zero, ◌+◌, ◌≤◌, ◌<◌, ◌≡◌, arith, some, List, [], ◌∷◌, get_elem?, returns, inl, inr,
}
use elfshaker.Algo.{u64_mod}
use elfshaker.BTreeMap
use elfshaker.BTreeMap.{IsDense}
use elfshaker.EntryPool.{Handle}
use elfshaker.PackIndex.Types.{ObjectMetadata, FileEntry}
use elfshaker.PackIndex.Index.{PackIndex}
use elfshaker.PackIndex.Layout.{size_handle, compute_object_offsets_and_ordering}
use elfshaker.PackIndex.Layout.Offsets.{Table, total_size, LaidOut}
use elfshaker.PackIndex.Layout.Ordering.{compute_object_offsets_and_ordering-Ordering}
use elfshaker.Repo.Pack.Objects.{Compatible}

LaidOut-inside :
    (offset : ℕ) (ps : List (ℕ × Handle)) (table : Table) (i : ℕ) (p : ℕ × Handle)
    (m : ObjectMetadata)
    → LaidOut offset ps table
    → get_elem? ps i ≡ some p
    → BTreeMap.get p.1 table ≡ some m
    → (offset ≤ m.offset) × (m.offset + m.size ≤ offset + total_size ps)
unfolding total_size
LaidOut-inside offset [] table i p m out at q = cc
LaidOut-inside offset (r ∷ ps) table zero p m (first, out) at q =
    let same : m ≡ record { offset = offset; size = r.0 } = ground (arith, at, q, first) in
    ground (arith, same)
LaidOut-inside offset (r ∷ ps) table (suc i) p m (first, out) at q =
    let (lo, hi) = LaidOut-inside (offset + r.0) ps table i p m out at q in
    (omega (arith, lo), omega (arith, hi))

LaidOut-apart :
    (offset : ℕ) (ps : List (ℕ × Handle)) (table : Table) (i j : ℕ) (p q : ℕ × Handle)
    (a b : FileEntry)
    → LaidOut offset ps table
    → get_elem? ps i ≡ some p
    → get_elem? ps j ≡ some q
    → BTreeMap.get p.1 table ≡ some a.object_metadata
    → BTreeMap.get q.1 table ≡ some b.object_metadata
    → Compatible a b
LaidOut-apart offset [] table i j p q a b out at at' pa qb = cc
LaidOut-apart offset (r ∷ ps) table zero zero p q a b out at at' pa qb =
    inr (inr (inl (ground (arith, at, at', pa, qb))))
LaidOut-apart offset (r ∷ ps) table zero (suc j) p q a b (first, out) at at' pa qb =
    let same : a.object_metadata ≡ record { offset = offset; size = r.0 } =
      ground (arith, at, pa, first) in
    let (lo, _) = LaidOut-inside (offset + r.0) ps table j q b.object_metadata out at' qb in
    inr (inr (inr (inl (ground (arith, same, lo)))))
LaidOut-apart offset (r ∷ ps) table (suc i) zero p q a b (first, out) at at' pa qb =
    let same : b.object_metadata ≡ record { offset = offset; size = r.0 } =
      ground (arith, at', qb, first) in
    let (lo, _) = LaidOut-inside (offset + r.0) ps table i p a.object_metadata out at pa in
    inr (inr (inr (inr (ground (arith, same, lo)))))
LaidOut-apart offset (r ∷ ps) table (suc i) (suc j) p q a b (first, out) at at' pa qb =
    LaidOut-apart (offset + r.0) ps table i j p q a b out at at' pa qb

-- the entries of a laid out pack, two by two
pub record Readable (index : PackIndex) (table : Table) : Type 0 where
  pub compatible :
      (h j : Handle) (m n : ObjectMetadata) (a b : FileEntry)
      → BTreeMap.get h index.object_metadata ≡ some m
      → BTreeMap.get j index.object_metadata ≡ some n
      → BTreeMap.get h table ≡ some a.object_metadata
      → BTreeMap.get j table ≡ some b.object_metadata
      → Compatible a b
  pub inside :
      (h : Handle) (m om : ObjectMetadata)
      → BTreeMap.get h index.object_metadata ≡ some m
      → BTreeMap.get h table ≡ some om
      → om.offset + om.size ≤ total_size (size_handle index.object_metadata)

-- After the layout any two entries of the index name the same object, or objects that are apart,
-- and every object lies inside the stream of all objects: what the reader asks of its entries.
-- The objects have the handles 0, 1, … and fewer than 2^64 bytes together.
pub compute_object_offsets_and_ordering-Readable :
    (index : PackIndex)
    → IsDense 0 index.object_metadata
    → total_size (size_handle index.object_metadata) < u64_mod
    → (table : Table) × (handles : List Handle) × (compute_object_offsets_and_ordering index
        ≡ returns (record index { object_metadata = table }, handles))
      × Readable index table
compute_object_offsets_and_ordering-Readable index d fits =
    let (table, order, eq, o) = compute_object_offsets_and_ordering-Ordering index d fits in
    (
      table,
      _,
      eq,
      record {
        compatible = λ h j m n a b hm jn ha jb.
            let (i, at) = o.complete h m hm in
            let (k, at') = o.complete j n jn in
            LaidOut-apart 0 order table i k (m.size, h) (n.size, j) a b o.laid_out at at' ha jb;
        inside = λ h m om hm q.
            let (i, at) = o.complete h m hm in
            omega (arith, LaidOut-inside 0 order table i (m.size, h) om o.laid_out at q, o.total);
      },
    )
