-- ===== src/Repo/Gc/Unreferenced.antt =====
-- Which objects `find_unreferenced_objects` of repo/repository.rs reports.
use elfshaker.Prelude.{
  ◌≡◌, refl, arith, Bool, false, not, ◌&&◌, ◌||◌, List, [], ◌∷◌, map, ok, contains, Bool-cases, inl,
  inr, list_beq_iff, list_eq, nat_eq, ◌==◌,
}
use elfshaker.HashSet
use elfshaker.HashSet.Laws.{contains-without}
use elfshaker.PackIndex.Types.{ObjectChecksum}
use elfshaker.PackIndex.Index.{PackIndex}
use elfshaker.Repo.Gc.{object_checksums, remove_each, find_unreferenced_objects}

-- some pack has the object in its pool
pub is_referenced : List PackIndex → ObjectChecksum → Bool
is_referenced [] x = false
is_referenced (pack ∷ packs) x = contains (object_checksums pack) x || is_referenced packs x

contains-remove :
    (a x : ObjectChecksum) (s : List ObjectChecksum)
    → contains (HashSet.remove a s).0 x ≡ (contains s x && not (a == x))
unfolding HashSet.remove
contains-remove a x s = elim (Bool-cases (contains s a)) [
  | inl there ↦ rw there (contains-without a x s)
  | inr absent ↦ rw absent (ground (arith, absent, list_beq_iff a x))
]

contains-remove_each :
    (x : ObjectChecksum) (s rs : List ObjectChecksum)
    → contains (remove_each s rs) x ≡ (contains s x && not (contains rs x))
unfolding remove_each
contains-remove_each x s [] = ground arith
contains-remove_each x s (r ∷ rs) =
    ground (arith, contains-remove_each x (HashSet.remove r s).0 rs, contains-remove r x s)

-- Where every root loads, the objects that are reported are exactly those on disk that no root
-- has in its pool.
pub find_unreferenced_objects-is_referenced {ℓ} :
    {E : Type ℓ} (objects : List ObjectChecksum) (packs : List PackIndex)
    → (reported : List ObjectChecksum) × (find_unreferenced_objects {E = E} objects (map ok packs)
        ≡ ok reported)
      × ((x : ObjectChecksum)
          → contains reported x ≡ (contains objects x && not (is_referenced packs x)))
unfolding find_unreferenced_objects is_referenced
find_unreferenced_objects-is_referenced {E = E} objects [] = (objects, refl, λ x. ground arith)
find_unreferenced_objects-is_referenced {E = E} objects (pack ∷ packs) =
    let (reported, eq, members) =
      find_unreferenced_objects-is_referenced {E = E} (remove_each objects (object_checksums pack))
        packs in
    (
      reported,
      eq,
      λ x. ground (arith, members x, contains-remove_each x objects (object_checksums pack)),
    )
