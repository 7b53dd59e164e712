-- ===== src/PackIndex/Index/Entries.antt =====
-- Lists of entries become handles, and handles decode to the entries.
use elfshaker.Prelude.{
  ℕ, zero, suc, ◌≡◌, refl, arith, some, List, [], ◌∷◌, length, returns, ok, list_eq, nat_eq, ap,
  contains, true, Bool-cases, inl, inr, get_elem?, ==_refl, subst,
}
use elfshaker.EntryPool
use elfshaker.EntryPool.Interning.{get_or_insert-lookup, get_elem?-lt_length}
use elfshaker.BTreeMap.Laws.{get-IsDense}
use elfshaker.PackIndex.Types.{
  FileHandle, ObjectMetadata, FileEntry, handle_eq, handle_beq, handle_beq_iff,
}
use elfshaker.PackIndex.Index.{PackIndex, handle_to_entry, entry_to_handle, entries_to_handles}
use elfshaker.PackIndex.Index.Tables.{
  IsConsistent, Extends, Extends-refl, Extends-trans, HasRoom, entry_to_handle-IsConsistent,
  entry_to_handle-Extends, entry_to_handle-HasRoom,
}

-- The handle stands for the path, the checksum and the metadata of the entry.
pub record Denotes (index : PackIndex) (handle : FileHandle) (entry : FileEntry) : Type 0 where
  pub path : EntryPool.lookup index.path_pool handle.path ≡ some entry.path
  pub object : EntryPool.lookup index.object_pool handle.object ≡ some entry.checksum
  pub metadata : handle.metadata ≡ entry.metadata

abbrev pub DenoteAll : PackIndex → List FileHandle → List FileEntry → Type 0
DenoteAll index [] [] = Unit
DenoteAll index (h ∷ hs) (x ∷ xs) = Denotes index h x × DenoteAll index hs xs
DenoteAll index _ _ = ⊥

pub Denotes-Extends :
    {before after : PackIndex} (h : FileHandle) (x : FileEntry)
    → Extends before after
    → Denotes before h x
    → Denotes after h x
Denotes-Extends h x f d = record {
  path = f.paths x.path h.path d.path;
  object = f.objects x.checksum h.object d.object;
  metadata = d.metadata;
}

pub entry_to_handle-Denotes :
    (index : PackIndex) (entry : FileEntry)
    → IsConsistent index
    → HasRoom index 1
    → Denotes (entry_to_handle index entry).0 (entry_to_handle index entry).1 entry
unfolding entry_to_handle
entry_to_handle-Denotes index entry v room = record {
  path = (get_or_insert-lookup index.path_pool entry.path v.paths (omega (arith, room.paths))).0;
  object =
      (get_or_insert-lookup index.object_pool entry.checksum v.objects
        (omega (arith, room.objects))).0;
  metadata = refl;
}

-- In a consistent index a handle decodes to the entry that it denotes, but for the place of the
-- object, which the last entry with its checksum decides. No `unwrap` fails.
pub handle_to_entry-Denotes :
    (index : PackIndex) (handle : FileHandle) (entry : FileEntry)
    → IsConsistent index
    → Denotes index handle entry
    → (m : ObjectMetadata) × (handle_to_entry index handle
        ≡ returns (ok (record entry { object_metadata = m })))
unfolding handle_to_entry EntryPool.lookup
handle_to_entry-Denotes index handle entry v d =
    let low = get_elem?-lt_length index.object_pool.entries handle.object entry.checksum d.object in
    let (m, p) =
      get-IsDense 0 handle.object index.object_metadata v.dense (omega arith)
        (omega (arith, low, v.covered)) in
    (
      m,
      rw (d.path, d.object, p)
          (ap (λ f. returns (ok (record entry { object_metadata = m; metadata = f }))) d.metadata),
    )

-- what `entries_to_handles index input` leaves
pub record Interns (index : PackIndex) (input : List FileEntry) : Type 0 where
  pub consistent : IsConsistent (entries_to_handles index input).0
  pub extends : Extends index (entries_to_handles index input).0
  pub denote : DenoteAll (entries_to_handles index input).0 (entries_to_handles index input).1 input

pub entries_to_handles-Interns :
    (index : PackIndex) (input : List FileEntry)
    → IsConsistent index
    → HasRoom index (length input)
    → Interns index input
unfolding entries_to_handles
entries_to_handles-Interns index [] v room = record {
  consistent = v;
  extends = Extends-refl index;
  denote = tt;
}
entries_to_handles-Interns index (x ∷ xs) v room =
    let one : HasRoom index 1 = omega (arith, room.paths, room.objects) in
    let index' = (entry_to_handle index x).0 in
    let ih =
      entries_to_handles-Interns index' xs (entry_to_handle-IsConsistent index x v one)
        (entry_to_handle-HasRoom index x v one (length xs) room) in
    record {
      consistent = ih.consistent;
      extends = Extends-trans (entry_to_handle-Extends index x v one) ih.extends;
      denote = (
        Denotes-Extends (entry_to_handle index x).1 x ih.extends
            (entry_to_handle-Denotes index x v one),
        ih.denote,
      );
    }

-- Every handle of such a list denotes an entry of the input.
pub DenoteAll-contains :
    (index : PackIndex) (hs : List FileHandle) (xs : List FileEntry) (h : FileHandle)
    → DenoteAll index hs xs
    → contains hs h ≡ true
    → (i : ℕ) × (x : FileEntry) × (get_elem? xs i ≡ some x) × Denotes index h x
DenoteAll-contains index [] [] h d c = cc
DenoteAll-contains index [] (x ∷ xs) h d c = elim d [ ]
DenoteAll-contains index (k ∷ hs) [] h d c = elim d [ ]
DenoteAll-contains index (k ∷ hs) (x ∷ xs) h (dx, d) c = elim (Bool-cases (handle_beq k h)) [
  | inl same ↦ (0, x, refl, subst (λ j. Denotes index j x) ((handle_beq_iff k h).0 same) dx)
  | inr other ↦
      let (i, y, p, q) = DenoteAll-contains index hs xs h d (ground (arith, other, c)) in
      (suc i, y, p, q)
]

-- Every entry of the input is denoted by a handle of the list.
pub DenoteAll-get_elem? :
    (index : PackIndex) (hs : List FileHandle) (xs : List FileEntry) (i : ℕ) (x : FileEntry)
    → DenoteAll index hs xs
    → get_elem? xs i ≡ some x
    → (h : FileHandle) × (contains hs h ≡ true) × Denotes index h x
DenoteAll-get_elem? index [] [] i x d p = cc
DenoteAll-get_elem? index [] (y ∷ xs) i x d p = elim d [ ]
DenoteAll-get_elem? index (h ∷ hs) [] i x d p = elim d [ ]
DenoteAll-get_elem? index (h ∷ hs) (y ∷ xs) zero x (dy, d) p =
    (h, ground (arith, ==_refl h), subst (Denotes index h) (ground arith) dy)
DenoteAll-get_elem? index (h ∷ hs) (y ∷ xs) (suc i) x (dy, d) p =
    let (k, c, q) = DenoteAll-get_elem? index hs xs i x d p in (k, ground (arith, c), q)
