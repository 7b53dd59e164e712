-- ===== src/Repo/Redundant/Groups.antt =====
-- The groups of `find_duplicate_snapshots` of repo/repository.rs: one for each checksum, with the
-- snapshots that have it.
use elfshaker.Prelude.{
  ◌≡◌, refl, ap, sym, ◌∙◌, arith, ◌||◌, List, [], ◌∷◌, ◌++◌, if◌then◌else◌, append-nil,
  append_assoc, contains, ◌==◌, list_eq, nat_eq, list_beq_iff, Bool-cases, inl, inr,
}
use elfshaker.HashSet.{IsDistinct}
use elfshaker.PackIndex.Types.{ObjectChecksum}
use elfshaker.Repo.Id.{SnapshotId}
use elfshaker.Repo.Redundant.{Item, Groups, push_group, group_all}

abbrev pub get_group : ObjectChecksum → Groups → List SnapshotId
get_group k [] = []
get_group k ((c, ss) ∷ gs) = if c == k then ss else get_group k gs

-- the snapshots with the checksum, in order
abbrev pub ids_with : ObjectChecksum → List Item → List SnapshotId
ids_with k [] = []
ids_with k ((c, s) ∷ items) = let rest = ids_with k items in if c == k then s ∷ rest else rest

abbrev pub keys : Groups → List ObjectChecksum
keys [] = []
keys ((c, ss) ∷ gs) = c ∷ keys gs

get_group-push_group :
    (k c : ObjectChecksum) (s : SnapshotId) (gs : Groups)
    → get_group k (push_group c s gs)
      ≡ (if c == k then get_group k gs ++ s ∷ [] else get_group k gs)
unfolding push_group
get_group-push_group k c s [] = refl
get_group-push_group k c s ((d, ss) ∷ gs) =
    ground
      (arith, get_group-push_group k c s gs, list_beq_iff d c, list_beq_iff d k, list_beq_iff c k)

get_group-group_all_onto :
    (k : ObjectChecksum) (gs : Groups) (items : List Item)
    → get_group k (group_all gs items) ≡ get_group k gs ++ ids_with k items
unfolding group_all
get_group-group_all_onto k gs [] = sym (append-nil (get_group k gs))
get_group-group_all_onto k gs ((c, s) ∷ items) =
    get_group-group_all_onto k (push_group c s gs) items
    ∙ ap (λ l. l ++ ids_with k items) (get_group-push_group k c s gs)
    ∙ elim (Bool-cases (c == k)) [
      | inl same ↦ rw same (append_assoc (get_group k gs) (s ∷ []) (ids_with k items))
      | inr other ↦ rw other refl
    ]

pub get_group-group_all :
    (k : ObjectChecksum) (items : List Item) → get_group k (group_all [] items) ≡ ids_with k items
get_group-group_all k items = get_group-group_all_onto k [] items

contains-keys-push_group :
    (k c : ObjectChecksum) (s : SnapshotId) (gs : Groups)
    → contains (keys (push_group c s gs)) k ≡ (contains (keys gs) k || c == k)
unfolding push_group
contains-keys-push_group k c s [] = ground arith
contains-keys-push_group k c s ((d, ss) ∷ gs) =
    ground (
      arith,
      contains-keys-push_group k c s gs,
      list_beq_iff d c,
      list_beq_iff d k,
      list_beq_iff c k,
    )

push_group-IsDistinct :
    (c : ObjectChecksum) (s : SnapshotId) (gs : Groups)
    → IsDistinct (keys gs)
    → IsDistinct (keys (push_group c s gs))
unfolding push_group
push_group-IsDistinct c s [] d = (refl, tt)
push_group-IsDistinct c s ((k, ss) ∷ gs) (once, d) = elim (Bool-cases (k == c)) [
  | inl same ↦ rw (same, push_group) (once, d)
  | inr other ↦
      rw (other, push_group)
        (
          ground (
            arith,
            contains-keys-push_group k c s gs,
            once,
            other,
            list_beq_iff k c,
            list_beq_iff c k,
          ),
          push_group-IsDistinct c s gs d,
        )
]

pub group_all-IsDistinct :
    (gs : Groups) (items : List Item)
    → IsDistinct (keys gs)
    → IsDistinct (keys (group_all gs items))
unfolding group_all
group_all-IsDistinct gs [] d = d
group_all-IsDistinct gs ((c, s) ∷ items) d =
    group_all-IsDistinct (push_group c s gs) items (push_group-IsDistinct c s gs d)
