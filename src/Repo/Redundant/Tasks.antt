-- ===== src/Repo/Redundant/Tasks.antt =====
-- The tasks of `find_duplicate_snapshots` of repo/repository.rs that end without an error.
use elfshaker.Prelude.{
  ℕ, ◌≡◌, sym, arith, subst, list_eq, nat_eq, Bool, none, some, List, ◌∷◌, ◌++◌, Result, ok,
  returns, Run-cases, Result-cases, Bool-cases, inl, inr,
}
use elfshaker.HashSet
use elfshaker.PackIndex.Types.{ObjectChecksum}
use elfshaker.PackIndex.Index.{Tag, PackIndex}
use elfshaker.PackIndex.Identity.{compute_snapshot_checksum}
use elfshaker.Repo.Id.{Str, PackId, SnapshotId, new, is_valid}
use elfshaker.Repo.Lookup.{Error, Storage, load_index, pack_eq}
use elfshaker.Repo.Redundant.{Item, collect_items, items_of, task, run_tasks}

new_lem :
    (is_graphic : ℕ → Bool) (p : PackId) (tag : Str) (s : SnapshotId)
    → new is_graphic p tag ≡ ok s
    → (s.pack ≡ p) × (s.tag ≡ tag)
unfolding new
new_lem g p tag s h = elim (Bool-cases (is_valid g tag)) [
  | inl good ↦ ground (arith, good)
  | inr bad ↦ ground (arith, bad)
]

module _ (st : Storage) where
  pub items_of-inv :
      (p : PackId) (index : PackIndex) (tag : Tag) (tags : List Tag) (items : List Item)
      → items_of st p index (tag ∷ tags) ≡ returns items
      → (c : ObjectChecksum) × (s : SnapshotId) × (rest : List Item) × (compute_snapshot_checksum
            st.sha1 index tag
          ≡ returns (some c))
        × (s.pack ≡ p)
        × (items_of st p index tags ≡ returns rest)
        × ((c, s) ∷ rest ≡ items)
  unfolding items_of
  items_of-inv p index tag tags items h =
      elim (Run-cases (compute_snapshot_checksum st.sha1 index tag)) [
        | inl stop ↦ cc (rw (stop, items_of) at h)
        | inr (none, went) ↦ cc (rw (went, items_of) at h)
        | inr (some c, went) ↦ elim (Result-cases (new st.is_graphic p tag)) [
          | inl (e, bad) ↦ cc (rw (went, bad, items_of) at h)
          | inr (s, made) ↦ elim (Run-cases (items_of st p index tags)) [
            | inl stop ↦ cc (rw (went, made, stop, items_of) at h)
            | inr (rest, later) ↦ (
              c,
              s,
              rest,
              went,
              (new_lem st.is_graphic p tag s made).0,
              later,
              cc (rw (went, made, later, items_of) at h),
            )
          ]
        ]
      ]

  pub task-inv :
      (p : PackId) (items : List Item)
      → task st p ≡ returns (ok items)
      → (index : PackIndex) × (load_index st p ≡ ok index)
        × (items_of st p index (HashSet.collect index.snapshot_tags) ≡ returns items)
  unfolding task
  task-inv p items h = elim (Result-cases (load_index st p)) [
    | inl (e, bad) ↦ cc (rw (bad, task) at h)
    | inr (index, l) ↦
        elim (Run-cases (items_of st p index (HashSet.collect index.snapshot_tags))) [
          | inl stop ↦ cc (rw (l, stop, task) at h)
          | inr (found, went) ↦
              let e : found ≡ items = cc (rw (l, went, task) at h) in (index, l, rw e at went)
        ]
  ]

  pub run_tasks-inv :
      (p : PackId) (ps : List PackId) (rs : List (Result Error (List Item))) (items : List Item)
      → run_tasks st (p ∷ ps) ≡ returns rs
      → collect_items rs ≡ ok items
      → (first : List Item) × (others : List Item) × (rest : List (Result Error (List Item)))
        × (task st p ≡ returns (ok first))
        × (run_tasks st ps ≡ returns rest)
        × (collect_items rest ≡ ok others)
        × (first ++ others ≡ items)
  unfolding run_tasks collect_items
  run_tasks-inv p ps rs items h k = elim (Run-cases (task st p)) [
    | inl stop ↦ cc (rw (stop, run_tasks) at h)
    | inr (r, one) ↦ elim (Run-cases (run_tasks st ps)) [
      | inl stop ↦ cc (rw (one, stop, run_tasks) at h)
      | inr (rest, went) ↦
          let e : r ∷ rest ≡ rs = cc (rw (one, went, run_tasks) at h) in
          let k' : collect_items (r ∷ rest) ≡ ok items =
            subst (λ l. collect_items l ≡ ok items) (sym e) k in
          elim (Result-cases r) [
            | inl (x, bad) ↦ cc (rw (bad, collect_items) at k')
            | inr (first, good) ↦ elim (Result-cases (collect_items rest)) [
              | inl (x, bad) ↦ cc (rw (good, bad, collect_items) at k')
              | inr (others, all) ↦ (
                first,
                others,
                rest,
                rw good at one,
                went,
                all,
                cc (rw (good, all, collect_items) at k'),
              )
            ]
          ]
    ]
  ]
