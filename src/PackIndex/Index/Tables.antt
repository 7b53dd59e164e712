-- ===== src/PackIndex/Index/Tables.antt =====
-- The tables of a pack index agree, and stay so when entries are added.
use elfshaker.Prelude.{
  ℕ, suc, ◌+◌, ◌≤◌, ◌≡◌, refl, arith, some, length, returns, ok, list_eq, nat_eq, eqb_refl, ◌∙◌,
}
use elfshaker.Algo.{u32_mod}
use elfshaker.EntryPool
use elfshaker.EntryPool.{Handle, EntryPool}
use elfshaker.EntryPool.Interning.{
  IsInterned, get_or_insert-IsInterned, get_or_insert-lookup, get_or_insert_grows,
}
use elfshaker.BTreeMap.{IsDense}
use elfshaker.BTreeMap.Laws.{get-insert, IsDense-insert}
use elfshaker.PackIndex.Types.{ObjectChecksum, PathBytes, FileEntry}
use elfshaker.PackIndex.Index.{PackIndex, handle_to_entry, entry_to_handle}

-- Both pools are interned, and `object_metadata` has an entry for each object.
pub record IsConsistent (index : PackIndex) : Type 0 where
  pub paths : IsInterned index.path_pool
  pub objects : IsInterned index.object_pool
  pub dense : IsDense 0 index.object_metadata
  pub covered : length index.object_metadata ≡ length index.object_pool.entries

-- What stays when entries are added: handles denote what they did, and the snapshots are the same.
pub record Extends (before after : PackIndex) : Type 0 where
  pub paths :
      (a : PathBytes) (h : Handle)
      → EntryPool.lookup before.path_pool h ≡ some a
      → EntryPool.lookup after.path_pool h ≡ some a
  pub objects :
      (c : ObjectChecksum) (h : Handle)
      → EntryPool.lookup before.object_pool h ≡ some c
      → EntryPool.lookup after.object_pool h ≡ some c
  pub tags : after.snapshot_tags ≡ before.snapshot_tags
  pub deltas : after.snapshot_deltas ≡ before.snapshot_deltas
  pub current : after.current ≡ before.current

pub Extends-refl : (index : PackIndex) → Extends index index
Extends-refl index = record {
  paths = λ a h p. p;
  objects = λ c h p. p;
  tags = refl;
  deltas = refl;
  current = refl;
}

pub Extends-trans : {a b c : PackIndex} → Extends a b → Extends b c → Extends a c
Extends-trans f g = record {
  paths = λ x h p. g.paths x h (f.paths x h p);
  objects = λ x h p. g.objects x h (f.objects x h p);
  tags = g.tags ∙ f.tags;
  deltas = g.deltas ∙ f.deltas;
  current = g.current ∙ f.current;
}

-- room for `n` more entries in both pools
pub record HasRoom (index : PackIndex) (n : ℕ) : Type 0 where
  pub paths : length index.path_pool.entries + n ≤ u32_mod
  pub objects : length index.object_pool.entries + n ≤ u32_mod

module _ (index : PackIndex) (entry : FileEntry) (v : IsConsistent index)
    (room : HasRoom index 1) where
  -- Interning an entry keeps the tables consistent.
  pub entry_to_handle-IsConsistent : IsConsistent (entry_to_handle index entry).0
  unfolding entry_to_handle
  entry_to_handle-IsConsistent =
      let object = (EntryPool.get_or_insert index.object_pool entry.checksum).1 in
      let (low, grown) =
        get_or_insert_grows index.object_pool entry.checksum v.objects
          (omega (arith, room.objects)) in
      let (dense, covered) =
        IsDense-insert 0 object entry.object_metadata index.object_metadata v.dense (omega arith)
          (omega (arith, low, v.covered)) in
      record {
        paths =
            get_or_insert-IsInterned index.path_pool entry.path v.paths (omega (arith, room.paths));
        objects =
            get_or_insert-IsInterned index.object_pool entry.checksum v.objects
              (omega (arith, room.objects));
        dense = dense;
        covered = ground (arith, covered, grown, v.covered);
      }

  pub entry_to_handle-Extends : Extends index (entry_to_handle index entry).0
  unfolding entry_to_handle
  entry_to_handle-Extends = record {
    paths = (get_or_insert-lookup index.path_pool entry.path v.paths (omega (arith, room.paths))).2;
    objects =
        (get_or_insert-lookup index.object_pool entry.checksum v.objects
          (omega (arith, room.objects))).2;
    tags = refl;
    deltas = refl;
    current = refl;
  }

  -- The handle of an entry that was just interned decodes to the entry.
  pub handle_to_entry-entry_to_handle :
      handle_to_entry (entry_to_handle index entry).0 (entry_to_handle index entry).1
      ≡ returns (ok entry)
  unfolding entry_to_handle handle_to_entry
  handle_to_entry-entry_to_handle =
      let path =
        get_or_insert-lookup index.path_pool entry.path v.paths (omega (arith, room.paths)) in
      let object =
        get_or_insert-lookup index.object_pool entry.checksum v.objects
          (omega (arith, room.objects)) in
      rw (path.0, object.0, get-insert, eqb_refl) refl

  pub entry_to_handle-HasRoom :
      (n : ℕ) → HasRoom index (suc n) → HasRoom (entry_to_handle index entry).0 n
  unfolding entry_to_handle
  entry_to_handle-HasRoom n r = record {
    paths = ground (
      arith,
      get_or_insert_grows index.path_pool entry.path v.paths (omega (arith, room.paths)),
      r.paths,
    );
    objects = ground (
      arith,
      get_or_insert_grows index.object_pool entry.checksum v.objects (omega (arith, room.objects)),
      r.objects,
    );
  }
