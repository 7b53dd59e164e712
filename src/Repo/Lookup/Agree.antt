-- ===== src/Repo/Lookup/Agree.antt =====
-- `find_pack_with_snapshot` of repo/repository.rs: the pack that is found has the snapshot, as every
-- other pack has it.
use elfshaker.Prelude.{
  ◌≡◌, refl, ap, arith, sym, ◌∙◌, Bool, true, false, ◌&&◌, ◌||◌, Option, none, some, List, [], ◌∷◌,
  All, if◌then◌else◌, ok, err, returns, Run-cases, Result-cases, Bool-cases, Option-cases, inl, inr,
  contains, ◌==◌, list_eq, nat_eq, list_beq_iff, subst,
}
use elfshaker.PackIndex.Types.{ObjectChecksum}
use elfshaker.PackIndex.Index.{Tag}
use elfshaker.Repo.Id.{PackId}
use elfshaker.Repo.Lookup.{
  pack_beq_iff, pack_eq, option_beq, Storage, packs, is_pack_loose, load_index_snapshots,
  snapshot_checksum, all_equal, are_snapshots_equal, find_loose, selected, disambiguate_snapshot,
  packs_with, choose, find_pack_with_snapshot,
}

option_beq→eq : (a b : Option ObjectChecksum) → option_beq a b ≡ true → a ≡ b
option_beq→eq none none h = refl
option_beq→eq none (some b) h = cc
option_beq→eq (some a) none h = cc
option_beq→eq (some a) (some b) h = ground (arith, list_beq_iff a b)

module _ (st : Storage) (snapshot : Tag) where
  -- the pack lists the tag
  abbrev pub lists : PackId → Bool
  lists p = elim (load_index_snapshots st p) [ err e ↦ false | ok tags ↦ contains tags snapshot ]

  abbrev pub any_loose : List PackId → Bool
  any_loose [] = false
  any_loose (p ∷ ps) = is_pack_loose st p || any_loose ps

  -- The pack is one of them, the snapshot of each has its checksum, and it is loose if any of them is.
  pub record Chosen (all : List PackId) (p : PackId) : Type 0 where
    pub among : contains all p ≡ true
    pub agree : All (λ q. snapshot_checksum st snapshot q ≡ snapshot_checksum st snapshot p) all

  all_equal-All :
      (first : Option ObjectChecksum) (ps : List PackId)
      → all_equal st snapshot first ps ≡ returns true
      → All (λ q. snapshot_checksum st snapshot q ≡ returns first) ps
  unfolding all_equal
  all_equal-All first [] h = tt
  all_equal-All first (p ∷ ps) h = elim (Run-cases (snapshot_checksum st snapshot p)) [
    | inl stop ↦ cc (rw (stop, all_equal) at h)
    | inr (c, went) ↦ elim (Bool-cases (option_beq c first)) [
      | inr other ↦ cc (rw (went, other, all_equal) at h)
      | inl same ↦ (
        rw (option_beq→eq c first same) at went,
        all_equal-All first ps (rw (went, same, all_equal) at h),
      )
    ]
  ]

  find_loose-among :
      (ps : List PackId) (p : PackId)
      → find_loose st ps ≡ some p
      → (contains ps p ≡ true) × (is_pack_loose st p ≡ true)
  unfolding find_loose
  find_loose-among [] p h = cc
  find_loose-among (q ∷ ps) p h = elim (Bool-cases (is_pack_loose st q)) [
    | inl here ↦
        let e : q ≡ p = cc (rw (here, find_loose) at h) in
        subst (λ k. (contains (q ∷ ps) k ≡ true) × (is_pack_loose st k ≡ true)) e
          (ground (arith, pack_beq_iff q q), here)
    | inr later ↦
        let (a, l) = find_loose-among ps p (rw (later, find_loose) at h) in (ground (arith, a), l)
  ]

  find_loose-none : (ps : List PackId) → find_loose st ps ≡ none → any_loose ps ≡ false
  unfolding find_loose
  find_loose-none [] h = refl
  find_loose-none (q ∷ ps) h = elim (Bool-cases (is_pack_loose st q)) [
    | inl here ↦ cc (rw (here, find_loose) at h)
    | inr later ↦ ground (arith, later, find_loose-none ps (rw (later, find_loose) at h))
  ]

  find_loose_any :
      (ps : List PackId) (p : PackId)
      → contains ps p ≡ true
      → is_pack_loose st p ≡ true
      → any_loose ps ≡ true
  find_loose_any [] p h l = cc
  find_loose_any (q ∷ ps) p h l = elim (Bool-cases (q == p)) [
    | inl same ↦ rw (ap (is_pack_loose st) ((pack_beq_iff q p).0 same) ∙ l) refl
    | inr other ↦ ground (arith, find_loose_any ps p (ground (arith, other, h)) l)
  ]

  All-returns :
      (c : Option ObjectChecksum) (p : PackId) (ps : List PackId)
      → All (λ q. snapshot_checksum st snapshot q ≡ returns c) ps
      → contains ps p ≡ true
      → snapshot_checksum st snapshot p ≡ returns c
  All-returns c p [] a h = cc
  All-returns c p (q ∷ ps) (e, a) h = elim (Bool-cases (q == p)) [
    | inl same ↦ rw ((pack_beq_iff q p).0 same) at e
    | inr other ↦ All-returns c p ps a (ground (arith, other, h))
  ]

  All-agree :
      (c : Option ObjectChecksum) (p : PackId) (ps : List PackId)
      → snapshot_checksum st snapshot p ≡ returns c
      → All (λ q. snapshot_checksum st snapshot q ≡ returns c) ps
      → All (λ q. snapshot_checksum st snapshot q ≡ snapshot_checksum st snapshot p) ps
  All-agree c p [] e a = tt
  All-agree c p (q ∷ ps) e (d, a) = (d ∙ sym e, All-agree c p ps e a)

  disambiguate_snapshot-Chosen :
      (p : PackId) (ps : List PackId) (q : PackId)
      → disambiguate_snapshot st (p ∷ ps) snapshot ≡ returns (ok q)
      → Chosen (p ∷ ps) q × (is_pack_loose st q ≡ any_loose (p ∷ ps))
  unfolding disambiguate_snapshot are_snapshots_equal selected
  disambiguate_snapshot-Chosen p ps q h = elim (Run-cases (snapshot_checksum st snapshot p)) [
    | inl stop ↦ cc (rw (stop, disambiguate_snapshot, are_snapshots_equal) at h)
    | inr (c, went) ↦ elim (Run-cases (all_equal st snapshot c ps)) [
      | inl stop ↦ cc (rw (went, stop, disambiguate_snapshot, are_snapshots_equal) at h)
      | inr (same, looked) ↦ elim (Bool-cases same) [
        | inr differ ↦
            cc (rw (went, looked, differ, disambiguate_snapshot, are_snapshots_equal) at h)
        | inl agree ↦
            let all_agree : All (λ k. snapshot_checksum st snapshot k ≡ returns c) (p ∷ ps) =
              (went, all_equal-All c ps (looked ∙ ap returns agree)) in
            let chosen : (k : PackId) → contains (p ∷ ps) k ≡ true → Chosen (p ∷ ps) k = λ k there.
              record {
                among = there;
                agree = All-agree c k (p ∷ ps) (All-returns c k (p ∷ ps) all_agree there) all_agree;
              } in
            elim (Option-cases (find_loose st (p ∷ ps))) [
              | inr (k, found) ↦
                  let e : k ≡ q = cc (
                    rw
                      (
                        went, looked, agree, found, disambiguate_snapshot, are_snapshots_equal,
                        selected,
                      )
                      at h) in
                  let (a, l) = find_loose-among (p ∷ ps) k found in
                  let any = find_loose_any (p ∷ ps) k a l in rw (← e) (chosen k a, l ∙ sym any)
              | inl missing ↦
                  let e : p ≡ q = cc (
                    rw
                      (
                        went, looked, agree, missing, disambiguate_snapshot, are_snapshots_equal,
                        selected,
                      )
                      at h) in
                  let none_loose = find_loose-none (p ∷ ps) missing in
                  let here : contains (p ∷ ps) p ≡ true = ground (arith, pack_beq_iff p p) in
                  rw (← e) (chosen p here, ground (arith, none_loose))
            ]
      ]
    ]
  ]

  packs_with-lists :
      (ps found : List PackId)
      → packs_with st snapshot ps ≡ ok found
      → (q : PackId) → contains found q ≡ (contains ps q && lists q)
  unfolding packs_with
  packs_with-lists [] found h q = ground (arith, h)
  packs_with-lists (p ∷ ps) found h q = elim (Result-cases (load_index_snapshots st p)) [
    | inl (e, bad) ↦ cc (rw (bad, packs_with) at h)
    | inr (tags, read) ↦ elim (Result-cases (packs_with st snapshot ps)) [
      | inl (e, bad) ↦ cc (rw (read, bad, packs_with) at h)
      | inr (rest, went) ↦
          let e : (if contains tags snapshot then p ∷ rest else rest) ≡ found =
            cc (rw (read, went, packs_with) at h) in
          let ih = packs_with-lists ps rest went q in
          let of_p : lists p ≡ contains tags snapshot = rw (read, lists) refl in
          rw (← e) (elim (Bool-cases (p == q)) [
            | inl same ↦
                let of_q : lists q ≡ contains tags snapshot =
                  rw (← (pack_beq_iff p q).0 same) of_p in
                ground (arith, ih, of_q, same)
            | inr other ↦ ground (arith, ih, other)
          ])
    ]
  ]

  choose-Chosen :
      (found : List PackId) (p : PackId)
      → choose st found snapshot ≡ returns (ok p)
      → Chosen found p × (is_pack_loose st p ≡ any_loose found)
  unfolding choose
  choose-Chosen [] p h = cc
  choose-Chosen (q ∷ []) p h =
      let e : q ≡ p = cc in
      rw e (record { among = ground (arith, pack_beq_iff p p); agree = (refl, tt) }, ground arith)
  choose-Chosen (q ∷ r ∷ ps) p h = disambiguate_snapshot-Chosen q (r ∷ ps) p h

  -- A pack that is found for a tag lists it, and so do exactly the others that were considered: the
  -- snapshot has one checksum in all of them, and the pack is a loose one where there is one.
  pub find_pack_with_snapshot-Chosen :
      (p : PackId)
      → find_pack_with_snapshot st snapshot ≡ returns (ok p)
      → (all : List PackId) × (found : List PackId) × (packs st ≡ ok all)
        × ((q : PackId) → contains found q ≡ (contains all q && lists q))
        × Chosen found p
        × (is_pack_loose st p ≡ any_loose found)
  unfolding find_pack_with_snapshot
  find_pack_with_snapshot-Chosen p h = elim (Result-cases (packs st)) [
    | inl (e, bad) ↦ cc (rw (bad, find_pack_with_snapshot) at h)
    | inr (all, walked) ↦ elim (Result-cases (packs_with st snapshot all)) [
      | inl (e, bad) ↦ cc (rw (walked, bad, find_pack_with_snapshot) at h)
      | inr (found, went) ↦
          let (c, l) = choose-Chosen found p (rw (walked, went, find_pack_with_snapshot) at h) in
          (all, found, walked, packs_with-lists all found went, c, l)
    ]
  ]
