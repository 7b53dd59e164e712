-- ===== src/Repo/Redundant/Items.antt =====
-- The items of `find_duplicate_snapshots` of repo/repository.rs: snapshots with their checksums.
use elfshaker.Prelude.{
  true, false, ◌&&◌, ◌||◌, ◌∙◌, refl, ◌==◌, contains, list_beq_iff, ◌≡◌, sym, arith, subst, list_eq,
  nat_eq, Bool, some, List, [], ◌∷◌, ◌++◌, All, All-append, Result, ok, returns, Run-cases,
  Bool-cases, inl, inr,
}
use elfshaker.HashSet
use elfshaker.HashSet.Laws.{contains-collect}
use elfshaker.PackIndex.Types.{ObjectChecksum}
use elfshaker.PackIndex.Index.{Tag, PackIndex}
use elfshaker.PackIndex.Identity.{compute_snapshot_checksum}
use elfshaker.Repo.Id.{PackId, SnapshotId}
use elfshaker.Repo.Lookup.{Error, Storage, load_index, pack_eq, pack_beq_iff}
use elfshaker.Repo.Redundant.{Item, collect_items, items_of, task, run_tasks, snapshot_items}
use elfshaker.Repo.Redundant.Tasks.{items_of-inv, task-inv, run_tasks-inv}

-- a snapshot with the checksum, in the pack
abbrev pub has_copy : PackId → ObjectChecksum → List Item → Bool
has_copy p k [] = false
has_copy p k ((c, s) ∷ items) = c == k && s.pack == p || has_copy p k items

has_copy-append :
    (p : PackId) (k : ObjectChecksum) (xs ys : List Item)
    → has_copy p k (xs ++ ys) ≡ (has_copy p k xs || has_copy p k ys)
has_copy-append p k [] ys = refl
has_copy-append p k ((c, s) ∷ xs) ys = ground (arith, has_copy-append p k xs ys)

module _ (st : Storage) where
  -- the index of the pack lists a snapshot whose checksum this is
  abbrev pub HasSnapshot : PackId → ObjectChecksum → Type 0
  HasSnapshot p c =
      (index : PackIndex) × (tag : Tag) × (load_index st p ≡ ok index)
      × (contains index.snapshot_tags tag ≡ true)
      × (compute_snapshot_checksum st.sha1 index tag ≡ returns (some c))

  -- Every snapshot of the index is among the items of its pack, and there are no others.
  items_of-has_copy :
      (p : PackId) (index : PackIndex) (tags : List Tag) (items : List Item) (tag : Tag)
      (c : ObjectChecksum)
      → items_of st p index tags ≡ returns items
      → contains tags tag ≡ true
      → compute_snapshot_checksum st.sha1 index tag ≡ returns (some c)
      → has_copy p c items ≡ true
  items_of-has_copy p index [] items tag c h there went = cc
  items_of-has_copy p index (t ∷ tags) items tag c h there went =
      let (d, s, rest, at, owner, later, e) = items_of-inv st p index t tags items h in
      rw (← e) (elim (Bool-cases (t == tag)) [
        | inl same ↦
            let at' : compute_snapshot_checksum st.sha1 index tag ≡ returns (some d) =
              subst (λ x. compute_snapshot_checksum st.sha1 index x ≡ returns (some d))
                ((list_beq_iff t tag).0 same) at in
            let equal : d ≡ c = cc in
            ground (arith, pack_beq_iff s.pack p, list_beq_iff d c, equal, owner)
        | inr other ↦
            let ih =
              items_of-has_copy p index tags rest tag c later (ground (arith, there, other)) went in
            ground (arith, ih)
      ])

  items_of-All :
      (p : PackId) (index : PackIndex) (tags : List Tag) (items : List Item) (r : Item → Type 0)
      → items_of st p index tags ≡ returns items
      → ((tag : Tag) (c : ObjectChecksum) (s : SnapshotId)
          → contains tags tag ≡ true
          → compute_snapshot_checksum st.sha1 index tag ≡ returns (some c)
          → s.pack ≡ p
          → r (c, s))
      → All r items
  unfolding items_of
  items_of-All p index [] items r h each = let e : [] ≡ items = cc in subst (All r) e tt
  items_of-All p index (t ∷ tags) items r h each =
      let (d, s, rest, at, owner, later, e) = items_of-inv st p index t tags items h in
      subst (All r) e (
        each t d s (ground (arith, list_beq_iff t t)) at owner,
        items_of-All p index tags rest r later
            (λ tag c i there. each tag c i (ground (arith, there))),
      )

  module _ (all : List PackId) where
    -- the item's pack is one of them, and has a snapshot with the checksum
    abbrev pub Recorded : Item → Type 0
    Recorded (c, s) = (contains all s.pack ≡ true) × HasSnapshot s.pack c

    task-All :
        (p : PackId) (items : List Item)
        → contains all p ≡ true
        → task st p ≡ returns (ok items)
        → All Recorded items
    task-All p items listed h =
        let (index, l, went) = task-inv st p items h in
        items_of-All p index (HashSet.collect index.snapshot_tags) items Recorded went
          λ tag c s there at owner.
            let there' = sym (contains-collect tag index.snapshot_tags) ∙ there in
            (rw owner listed, (index, tag, rw owner l, there', at))

    run_tasks-All :
        (ps : List PackId) (rs : List (Result Error (List Item))) (items : List Item)
        → ((p : PackId) → contains ps p ≡ true → contains all p ≡ true)
        → run_tasks st ps ≡ returns rs
        → collect_items rs ≡ ok items
        → All Recorded items
    unfolding run_tasks collect_items
    run_tasks-All [] rs items sub h k =
        let e : [] ≡ rs = cc in let f : [] ≡ items = cc (rw (← e) at k) in subst (All Recorded) f tt
    run_tasks-All (p ∷ ps) rs items sub h k =
        let (first, others, rest, one, went, more, e) = run_tasks-inv st p ps rs items h k in
        subst (All Recorded) e (
          All-append Recorded first others
            (task-All p first (sub p (ground (arith, pack_beq_iff p p))) one)
            (run_tasks-All ps rest others (λ q there. sub q (ground (arith, there))) went more))

  task-has_copy :
      (p : PackId) (items : List Item) (c : ObjectChecksum)
      → task st p ≡ returns (ok items)
      → HasSnapshot p c
      → has_copy p c items ≡ true
  task-has_copy p items c h (index, tag, l, there, at) =
      let (index', l', went) = task-inv st p items h in
      let e : index' ≡ index = cc in
      let went' : items_of st p index (HashSet.collect index.snapshot_tags) ≡ returns items =
        rw e at went in
      items_of-has_copy p index (HashSet.collect index.snapshot_tags) items tag c went'
        (contains-collect tag index.snapshot_tags ∙ there) at

  run_tasks-has_copy :
      (ps : List PackId) (rs : List (Result Error (List Item))) (items : List Item) (p : PackId)
      (c : ObjectChecksum)
      → run_tasks st ps ≡ returns rs
      → collect_items rs ≡ ok items
      → contains ps p ≡ true
      → HasSnapshot p c
      → has_copy p c items ≡ true
  run_tasks-has_copy [] rs items p c h k there has = cc
  run_tasks-has_copy (q ∷ ps) rs items p c h k there has =
      let (first, others, rest, one, went, more, e) = run_tasks-inv st q ps rs items h k in
      rw (← e) (
        rw (has_copy-append p c first others) (elim (Bool-cases (q == p)) [
          | inl same ↦
              let one' : task st p ≡ returns (ok first) =
                subst (λ x. task st x ≡ returns (ok first)) ((pack_beq_iff q p).0 same) one in
              ground (arith, task-has_copy p first c one' has)
          | inr other ↦
              let ih =
                run_tasks-has_copy ps rest others p c went more (ground (arith, there, other))
                  has in
              ground (arith, ih)
        ]))

  -- The items are exactly the snapshots of the packs.
  pub snapshot_items-All :
      (ps : List PackId) (items : List Item)
      → snapshot_items st ps ≡ returns (ok items)
      → All (Recorded ps) items
        × ((p : PackId) (c : ObjectChecksum)
            → contains ps p ≡ true
            → HasSnapshot p c
            → has_copy p c items ≡ true)
  unfolding snapshot_items
  snapshot_items-All ps items h = elim (Run-cases (run_tasks st ps)) [
    | inl stop ↦ cc (rw (stop, snapshot_items) at h)
    | inr (rs, went) ↦
        let k : collect_items rs ≡ ok items = cc (rw (went, snapshot_items) at h) in
        (
          run_tasks-All ps ps rs items (λ p there. there) went k,
          λ p c. run_tasks-has_copy ps rs items p c went k,
        )
  ]
