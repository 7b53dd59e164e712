-- ===== src/Repo/Redundant/Present.antt =====
-- The snapshots that `find_redundant_loose_packs` of repo/repository.rs takes from the groups.
use elfshaker.Prelude.{
  suc, ◌≡◌, ◌↔◌, refl, ap, sym, ◌∙◌, arith, Bool, true, false, not, ◌&&◌, ◌||◌, List, [], ◌∷◌, ◌++◌,
  length, ltb, lt→ltb, Bool-cases, inl, inr, contains, ◌==◌, list_eq, nat_eq, list_beq_iff,
}
use elfshaker.HashSet.{IsDistinct}
use elfshaker.PackIndex.Types.{ObjectChecksum}
use elfshaker.Repo.Id.{PackId, SnapshotId}
use elfshaker.Repo.Lookup.{Storage, is_pack_loose, pack_eq, pack_beq_iff}
use elfshaker.Repo.Redundant.{
  Item, Groups, group_all, is_any_non_loose, filter_out_packed_snapshots, loose_present_in_packs,
}
use elfshaker.Repo.Redundant.Items.{has_copy}
use elfshaker.Repo.Redundant.Groups.{
  get_group, ids_with, keys, get_group-group_all, group_all-IsDistinct,
}
use elfshaker.Repo.Redundant.Removal.{
  has_pack, has_pack-append, keys-get_group, and_right, or_right,
}

module _ (st : Storage) where
  has_pack-filter :
      (p : PackId) (ss : List SnapshotId)
      → has_pack p (filter_out_packed_snapshots st ss) ≡ (is_pack_loose st p && has_pack p ss)
  unfolding filter_out_packed_snapshots
  has_pack-filter p [] = ground arith
  has_pack-filter p (s ∷ ss) = elim (Bool-cases (s.pack == p)) [
    | inl same ↦
        let e = ap (is_pack_loose st) ((pack_beq_iff s.pack p).0 same) in
        ground (arith, has_pack-filter p ss, same, e)
    | inr other ↦ ground (arith, has_pack-filter p ss, other)
  ]

  -- a pack that is loose beside one that is not: there are two
  two_snapshots :
      (p : PackId) (ss : List SnapshotId)
      → is_pack_loose st p ≡ true
      → has_pack p ss ≡ true
      → is_any_non_loose st ss ≡ true
      → ltb 1 (length ss) ≡ true
  two_snapshots p [] l h a = cc
  two_snapshots p (s ∷ []) l h a = elim (Bool-cases (s.pack == p)) [
    | inl same ↦ let e = ap (is_pack_loose st) ((pack_beq_iff s.pack p).0 same) in ground (arith, e)
    | inr other ↦ ground (arith, other)
  ]
  two_snapshots p (s ∷ t ∷ ss) l h a = lt→ltb 1 (suc (suc (length ss))) (omega arith)

  -- the group of the checksum has the pack, and one that is not loose
  record Shared (p : PackId) (gs : Groups) (k : ObjectChecksum) : Type 0 where
    loose : is_pack_loose st p ≡ true
    among : has_pack p (get_group k gs) ≡ true
    packed : is_any_non_loose st (get_group k gs) ≡ true

  Shared-later :
      (p : PackId) (c k : ObjectChecksum) (ss : List SnapshotId) (gs : Groups)
      → contains (keys gs) c ≡ false
      → Shared p gs k
      → Shared p ((c, ss) ∷ gs) k
  Shared-later p c k ss gs once s =
      let there = keys-get_group p k gs s.among in
      elim (Bool-cases (c == k)) [
        | inl same ↦
            let e : contains (keys gs) c ≡ true = rw ((list_beq_iff c k).0 same) there in cc
        | inr other ↦ record {
          loose = s.loose;
          among = rw other s.among;
          packed = rw other s.packed;
        }
      ]

  Shared-here :
      (p : PackId) (c : ObjectChecksum) (ss : List SnapshotId) (gs : Groups)
      → is_any_non_loose st ss ≡ true
      → has_pack p (filter_out_packed_snapshots st ss) ≡ true
      → Shared p ((c, ss) ∷ gs) c
  Shared-here p c ss gs a h =
      let f = has_pack-filter p ss in
      let r : (c == c) ≡ true = (list_beq_iff c c).1 refl in
      record { loose = ground (arith, f, h); among = rw r (ground (arith, f, h)); packed = rw r a }

  present-group :
      (p : PackId) (gs : Groups)
      → IsDistinct (keys gs)
      → has_pack p (loose_present_in_packs st gs) ≡ true
      → (k : ObjectChecksum) × Shared p gs k
  unfolding loose_present_in_packs
  present-group p [] d h = cc
  present-group p ((c, ss) ∷ gs) (once, d) h =
      elim (Bool-cases (ltb 1 (length ss) && is_any_non_loose st ss)) [
        | inr small ↦
            let (k, s) = present-group p gs d (rw (small, loose_present_in_packs) at h) in
            (k, Shared-later p c k ss gs once s)
        | inl shared ↦
            let h' : has_pack p (filter_out_packed_snapshots st ss ++ loose_present_in_packs st gs)
                ≡ true =
              rw (shared, loose_present_in_packs) at h in
            let both =
              has_pack-append p (filter_out_packed_snapshots st ss)
                (loose_present_in_packs st gs) in
            elim (Bool-cases (has_pack p (filter_out_packed_snapshots st ss))) [
              | inl here ↦ (
                c,
                Shared-here p c ss gs
                    (and_right (ltb 1 (length ss)) (is_any_non_loose st ss) shared) here,
              )
              | inr absent ↦
                  let (k, s) = present-group p gs d (
                    or_right (has_pack p (filter_out_packed_snapshots st ss))
                      (has_pack p (loose_present_in_packs st gs)) (sym both ∙ h') absent) in
                  (k, Shared-later p c k ss gs once s)
            ]
      ]

  group-present :
      (p : PackId) (k : ObjectChecksum) (gs : Groups)
      → is_pack_loose st p ≡ true
      → has_pack p (get_group k gs) ≡ true
      → is_any_non_loose st (get_group k gs) ≡ true
      → has_pack p (loose_present_in_packs st gs) ≡ true
  unfolding loose_present_in_packs
  group-present p k [] l h a = cc
  group-present p k ((c, ss) ∷ gs) l h a =
      let both =
        has_pack-append p (filter_out_packed_snapshots st ss) (loose_present_in_packs st gs) in
      elim (Bool-cases (c == k)) [
        | inl same ↦
            let h' : has_pack p ss ≡ true = rw same at h in
            let a' : is_any_non_loose st ss ≡ true = rw same at a in
            let two = two_snapshots p ss l h' a' in
            ground (arith, two, a', both, has_pack-filter p ss, l, h')
        | inr other ↦
            let ih = group-present p k gs l (rw other at h) (rw other at a) in
            ground (arith, both, ih)
      ]

  -- a snapshot with the checksum, in some pack that is not loose
  abbrev pub is_packed : ObjectChecksum → List Item → Bool
  is_packed k [] = false
  is_packed k ((c, s) ∷ items) = c == k && not (is_pack_loose st s.pack) || is_packed k items

  has_copy-ids_with :
      (p : PackId) (k : ObjectChecksum) (items : List Item)
      → has_pack p (ids_with k items) ≡ has_copy p k items
  has_copy-ids_with p k [] = refl
  has_copy-ids_with p k ((c, s) ∷ items) = ground (arith, has_copy-ids_with p k items)

  is_packed-ids_with :
      (k : ObjectChecksum) (items : List Item)
      → is_any_non_loose st (ids_with k items) ≡ is_packed k items
  is_packed-ids_with k [] = refl
  is_packed-ids_with k ((c, s) ∷ items) = ground (arith, is_packed-ids_with k items)

  -- the pack is loose, and an item of it is in a pack that is not
  abbrev pub IsPresent : List Item → PackId → Type 0
  IsPresent items p =
      (is_pack_loose st p ≡ true)
      × (k : ObjectChecksum) × (has_copy p k items ≡ true)
      × (is_packed k items ≡ true)

  pub IsPresent-iff :
      (p : PackId) (items : List Item)
      → (has_pack p (loose_present_in_packs st (group_all [] items)) ≡ true) ↔ IsPresent items p
  IsPresent-iff p items =
      let gs = group_all [] items in
      (
        λ h.
            let (k, s) = present-group p gs (group_all-IsDistinct [] items tt) h in
            let e = get_group-group_all k items in
            (
              s.loose,
              k,
              sym (has_copy-ids_with p k items) ∙ (rw e at s.among),
              sym (is_packed-ids_with k items) ∙ (rw e at s.packed),
            ),
        λ (l, k, a, b).
            let e = get_group-group_all k items in
            group-present p k gs l (rw e (has_copy-ids_with p k items ∙ a))
              (rw e (is_packed-ids_with k items ∙ b)),
      )
