-- ===== src/Repo/Redundant/Removal.antt =====
-- The packs that are removed for a list of snapshots, repo/repository.rs.
use elfshaker.Prelude.{
  ◌≡◌, refl, arith, Bool, true, false, ◌&&◌, ◌||◌, List, [], ◌∷◌, ◌++◌, returns, Run-cases,
  Bool-cases, inl, inr, contains, ◌==◌, list_eq, nat_eq,
}
use elfshaker.PackIndex.Types.{ObjectChecksum}
use elfshaker.Repo.Id.{PackId, SnapshotId}
use elfshaker.Repo.Lookup.{pack_eq}
use elfshaker.Repo.Redundant.{Groups, packs_to_remove}
use elfshaker.Repo.Redundant.Groups.{get_group, keys}

abbrev pub has_pack : PackId → List SnapshotId → Bool
has_pack p [] = false
has_pack p (s ∷ ss) = s.pack == p || has_pack p ss

pub has_pack-append :
    (p : PackId) (ss ts : List SnapshotId)
    → has_pack p (ss ++ ts) ≡ (has_pack p ss || has_pack p ts)
has_pack-append p [] ts = refl
has_pack-append p (s ∷ ss) ts = ground (arith, has_pack-append p ss ts)

pub keys-get_group :
    (p : PackId) (k : ObjectChecksum) (gs : Groups)
    → has_pack p (get_group k gs) ≡ true
    → contains (keys gs) k ≡ true
keys-get_group p k [] h = cc
keys-get_group p k ((c, ss) ∷ gs) h = elim (Bool-cases (c == k)) [
  | inl here ↦ rw here refl
  | inr later ↦ rw later (keys-get_group p k gs (rw later at h))
]

pub and_right : (a b : Bool) → (a && b) ≡ true → b ≡ true
and_right true b h = h
and_right false b h = cc

pub or_right : (a b : Bool) → (a || b) ≡ true → a ≡ false → b ≡ true
or_right true b h k = cc
or_right false b h k = h

pub packs_to_remove-has_pack :
    (ss : List SnapshotId) (ps : List PackId)
    → packs_to_remove ss ≡ returns ps
    → (p : PackId) → contains ps p ≡ has_pack p ss
unfolding packs_to_remove
packs_to_remove-has_pack [] ps h p = ground (arith, h)
packs_to_remove-has_pack (s ∷ ss) ps h p = elim (Run-cases (packs_to_remove ss)) [
  | inl stop ↦ ground (arith, stop, h)
  | inr (rest, went) ↦
      let ih = packs_to_remove-has_pack ss rest went p in ground (arith, went, h, ih)
]
