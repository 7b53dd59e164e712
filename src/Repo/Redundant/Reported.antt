-- ===== src/Repo/Redundant/Reported.antt =====
-- Which packs `find_redundant_loose_packs` of repo/repository.rs reports.
use elfshaker.Prelude.{
  subst, ◌≡◌, ◌↔◌, ap, arith, true, false, not, ◌&&◌, List, [], ◌∷◌, ok, err, returns, Run-cases,
  Result-cases, Bool-cases, inl, inr, contains, ◌==◌, list_eq, nat_eq, list_beq_iff, All,
}
use elfshaker.PackIndex.Types.{ObjectChecksum}
use elfshaker.Repo.Id.{PackId}
use elfshaker.Repo.Lookup.{Storage, packs, is_pack_loose, pack_eq, pack_beq_iff}
use elfshaker.Repo.Redundant.{
  Item, group_all, snapshot_items, loose_present_in_packs, packs_to_remove,
  find_duplicate_snapshots, find_redundant_loose_packs,
}
use elfshaker.Repo.Redundant.Items.{HasSnapshot, Recorded, has_copy, snapshot_items-All}
use elfshaker.Repo.Redundant.Removal.{packs_to_remove-has_pack}
use elfshaker.Repo.Redundant.Present.{is_packed, IsPresent, IsPresent-iff}

module _ (st : Storage) where
  has_copy-HasSnapshot :
      (all : List PackId) (p : PackId) (k : ObjectChecksum) (items : List Item)
      → All (Recorded st all) items
      → has_copy p k items ≡ true
      → (contains all p ≡ true) × HasSnapshot st p k
  has_copy-HasSnapshot all p k [] f h = cc
  has_copy-HasSnapshot all p k ((c, s) ∷ items) (r, f) h =
      elim (Bool-cases (c == k && s.pack == p)) [
        | inl here ↦
            let same : s.pack ≡ p = ground (arith, pack_beq_iff s.pack p, here) in
            let equal : c ≡ k = ground (arith, list_beq_iff c k, here) in
            subst (λ q. (contains all q ≡ true) × HasSnapshot st q k) same
              (subst (λ d. (contains all s.pack ≡ true) × HasSnapshot st s.pack d) equal r)
        | inr other ↦ has_copy-HasSnapshot all p k items f (ground (arith, other, h))
      ]

  is_packed-has_copy :
      (k : ObjectChecksum) (items : List Item)
      → is_packed st k items ≡ true
      → (q : PackId) × (is_pack_loose st q ≡ false) × (has_copy q k items ≡ true)
  is_packed-has_copy k [] h = cc
  is_packed-has_copy k ((c, s) ∷ items) h =
      elim (Bool-cases (c == k && not (is_pack_loose st s.pack))) [
        | inl here ↦
            (s.pack, ground (arith, here), ground (arith, here, pack_beq_iff s.pack s.pack))
        | inr other ↦
            let (q, regular, copy) = is_packed-has_copy k items (ground (arith, other, h)) in
            (q, regular, ground (arith, copy))
      ]

  has_copy-is_packed :
      (q : PackId) (k : ObjectChecksum) (items : List Item)
      → is_pack_loose st q ≡ false
      → has_copy q k items ≡ true
      → is_packed st k items ≡ true
  has_copy-is_packed q k [] regular h = cc
  has_copy-is_packed q k ((c, s) ∷ items) regular h = elim (Bool-cases (c == k && s.pack == q)) [
    | inl here ↦
        let same : s.pack ≡ q = ground (arith, pack_beq_iff s.pack q, here) in
        let regular' = ap (is_pack_loose st) same in ground (arith, here, regular, regular')
    | inr other ↦
        let ih = has_copy-is_packed q k items regular (ground (arith, other, h)) in
        ground (arith, ih)
  ]

  -- Of the packs, this is a loose one, and one that is not loose has a snapshot with the checksum
  -- of one of its snapshots.
  pub record IsRedundant (all : List PackId) (p : PackId) : Type 0 where
    listed : contains all p ≡ true
    loose : is_pack_loose st p ≡ true
    checksum : ObjectChecksum
    present : HasSnapshot st p checksum
    other : PackId
    other_listed : contains all other ≡ true
    other_regular : is_pack_loose st other ≡ false
    other_present : HasSnapshot st other checksum

  IsPresent-IsRedundant :
      (all : List PackId) (items : List Item) (p : PackId)
      → snapshot_items st all ≡ returns (ok items)
      → IsPresent st items p ↔ IsRedundant all p
  IsPresent-IsRedundant all items p went =
      let (sound, complete) = snapshot_items-All st all items went in
      (
        λ (l, k, a, b).
            let (q, regular, copy) = is_packed-has_copy k items b in
            let (listed, present) = has_copy-HasSnapshot all p k items sound a in
            let (listed', present') = has_copy-HasSnapshot all q k items sound copy in
            record {
              listed = listed;
              loose = l;
              checksum = k;
              present = present;
              other = q;
              other_listed = listed';
              other_regular = regular;
              other_present = present';
            },
        λ r. (
          r.loose,
          r.checksum,
          complete p r.checksum r.listed r.present,
          has_copy-is_packed r.other r.checksum items r.other_regular
              (complete r.other r.checksum r.other_listed r.other_present),
        ),
      )

  -- Where the search returns packs, the packs have been listed, and it reports exactly the loose
  -- ones of them with a snapshot whose checksum some snapshot of a listed pack that is not loose
  -- has too.
  pub find_redundant_loose_packs_iff :
      (reported : List PackId)
      → find_redundant_loose_packs st ≡ returns (ok reported)
      → (all : List PackId) × (packs st ≡ ok all)
        × ((p : PackId) → (contains reported p ≡ true) ↔ IsRedundant all p)
  unfolding find_redundant_loose_packs find_duplicate_snapshots
  find_redundant_loose_packs_iff reported h = elim (Result-cases (packs st)) [
    | inl (e, bad) ↦ cc (rw (bad, find_redundant_loose_packs) at h)
    | inr (all, walked) ↦ elim (Run-cases (snapshot_items st all)) [
      | inl stop ↦ cc (rw (walked, stop, find_redundant_loose_packs, find_duplicate_snapshots) at h)
      | inr (err e, went) ↦
          cc (rw (walked, went, find_redundant_loose_packs, find_duplicate_snapshots) at h)
      | inr (ok items, went) ↦
          let ss = loose_present_in_packs st (group_all [] items) in
          elim (Run-cases (packs_to_remove ss)) [
            | inl stop ↦
                cc (
                  rw (walked, went, stop, find_redundant_loose_packs, find_duplicate_snapshots) at
                    h)
            | inr (ps, out) ↦
                let e : ps ≡ reported = cc (
                  rw (walked, went, out, find_redundant_loose_packs, find_duplicate_snapshots) at
                    h) in
                (
                  all,
                  walked,
                  λ p.
                      let same = packs_to_remove-has_pack ss ps out p in
                      let (f, g) = IsPresent-iff st p items in
                      let (f', g') = IsPresent-IsRedundant all items p went in
                      rw (← e) (rw same (λ h. f' (f h), λ r. g (g' r))),
                )
          ]
    ]
  ]
