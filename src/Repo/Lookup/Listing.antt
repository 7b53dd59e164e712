-- ===== src/Repo/Lookup/Listing.antt =====
-- `packs` of repo/repository.rs: the packs that the walk of the directory gives.
use elfshaker.Prelude.{
  ℕ, Result, err, ◌≡◌, arith, subst, false, ◌&&◌, Option, none, some, List, [], ◌∷◌, All, All-sort,
  sort, IsSorted, sort-IsSorted, leb, lex-IsTotalOrder, leb-IsTotalOrder, ok, Result-cases,
  Bool-cases, Option-cases, inl, inr, nat_eq, list_eq,
}
use elfshaker.PackIndex.Index.{Tag}
use elfshaker.Repo.Id.{Str, PackId, name_of, is_some, from_index_path, for_loose_snapshot, validate}
use elfshaker.Repo.Id.Safety.{for_loose_snapshot_valid}
use elfshaker.Repo.Lookup.{
  Error, Storage, PackFile, logical_pack_id_path, discovered_pack, starts_with_loose, pack_le,
  loose_pack_of, pack_of, packs_of, packs,
}

module _ (st : Storage) where
  -- a pack that is loose by its name has a valid name
  abbrev pub HasValidTag : PackId → Type 0
  HasValidTag p = (starts_with_loose (name_of p) && is_some (validate st.is_graphic p)) ≡ false

  loose_pack_of-HasValidTag :
      (tags : List Tag) (p : PackId) → loose_pack_of st tags ≡ ok p → HasValidTag p
  unfolding loose_pack_of
  loose_pack_of-HasValidTag [] p h = cc
  loose_pack_of-HasValidTag (t ∷ u ∷ ts) p h = cc
  loose_pack_of-HasValidTag (t ∷ []) p h =
      elim (Result-cases (for_loose_snapshot st.is_graphic t)) [
        | inl (e, bad) ↦ cc (rw (bad, loose_pack_of) at h)
        | inr (q, made) ↦
            let same : q ≡ p = cc (rw (made, loose_pack_of) at h) in
            let v = for_loose_snapshot_valid st.is_graphic t q made in
            rw (← same) (ground (arith, v))
      ]

  abbrev Each : Option PackId → Type 0
  Each none = Unit
  Each (some p) = HasValidTag p

  discovered_pack-HasValidTag :
      (loaded : Result Error (List Tag)) (relative : Str) (found : Option PackId)
      → discovered_pack st loaded relative ≡ ok found
      → Each found
  unfolding discovered_pack
  discovered_pack-HasValidTag loaded relative none h = tt
  discovered_pack-HasValidTag loaded relative (some p) h =
      elim (Option-cases (from_index_path relative)) [
        | inl other ↦ cc (rw (other, discovered_pack) at h)
        | inr (d, named) ↦ elim (Bool-cases (starts_with_loose (name_of d))) [
          | inr regular ↦
              let same : d ≡ p = cc (rw (named, regular, discovered_pack) at h) in
              rw (← same) (ground (arith, regular))
          | inl loose ↦ elim (Result-cases loaded) [
            | inl (e, bad) ↦ cc (rw (named, loose, bad, discovered_pack) at h)
            | inr (tags, read) ↦ elim (Result-cases (loose_pack_of st tags)) [
              | inl (e, bad) ↦ cc (rw (named, loose, read, bad, discovered_pack) at h)
              | inr (q, made) ↦
                  let same : q ≡ p = cc (rw (named, loose, read, made, discovered_pack) at h) in
                  loose_pack_of-HasValidTag tags p (rw same at made)
            ]
          ]
        ]
      ]

  pack_of-HasValidTag :
      (file : PackFile) (found : Option PackId) → pack_of st file ≡ ok found → Each found
  unfolding pack_of
  pack_of-HasValidTag file none h = tt
  pack_of-HasValidTag file (some p) h = elim (Bool-cases file.is_file) [
    | inr other ↦ cc (rw (other, pack_of) at h)
    | inl regular ↦ elim (Result-cases (logical_pack_id_path file.path)) [
      | inl (e, bad) ↦ cc (rw (regular, bad, pack_of) at h)
      | inr (relative, good) ↦
          discovered_pack-HasValidTag file.tags relative (some p) (rw (regular, good, pack_of) at h)
    ]
  ]

  packs_of-All :
      (entries : List (Result ℕ PackFile)) (ps : List PackId)
      → packs_of st entries ≡ ok ps
      → All HasValidTag ps
  unfolding packs_of
  packs_of-All [] [] h = tt
  packs_of-All [] (p ∷ ps) h = cc
  packs_of-All (err e ∷ entries) ps h = cc
  packs_of-All (ok file ∷ entries) ps h = elim (Result-cases (pack_of st file)) [
    | inl (e, bad) ↦ cc (rw (bad, packs_of) at h)
    | inr (found, made) ↦ elim (Result-cases (packs_of st entries)) [
      | inl (e, bad) ↦ cc (rw (made, bad, packs_of) at h)
      | inr (rest, went) ↦ elim (Option-cases found) [
        | inl nothing ↦
            let same : rest ≡ ps = cc (rw (made, went, nothing, packs_of) at h) in
            subst (All HasValidTag) same (packs_of-All entries rest went)
        | inr (p, something) ↦
            let same : p ∷ rest ≡ ps = cc (rw (made, went, something, packs_of) at h) in
            let v : HasValidTag p = rw something at (pack_of-HasValidTag file found made) in
            subst (All HasValidTag) same (v, packs_of-All entries rest went)
      ]
    ]
  ]

  -- Where listing the packs succeeds, they come in the order of their names, and each that is loose
  -- by its name has a valid identifier.
  pub packs-IsSorted :
      (all : List PackId) → packs st ≡ ok all → IsSorted pack_le all × All HasValidTag all
  unfolding packs
  packs-IsSorted all h = elim (Option-cases st.create_root) [
    | inr (fault, stop) ↦ cc (rw (stop, packs) at h)
    | inl made ↦ elim (Result-cases (packs_of st st.walk)) [
      | inl (e, bad) ↦ cc (rw (made, bad, packs) at h)
      | inr (found, went) ↦
          let same : sort pack_le found ≡ all = cc (rw (made, went, packs) at h) in
          let o = lex-IsTotalOrder leb leb-IsTotalOrder in
          subst (λ l. IsSorted pack_le l × All HasValidTag l) same
            (
              sort-IsSorted pack_le (λ a b c p q. o.trans (name_of a) (name_of b) (name_of c) p q)
                  (λ a b p. o.total (name_of a) (name_of b) p) found,
              All-sort pack_le HasValidTag found (packs_of-All st.walk found went),
            )
    ]
  ]
