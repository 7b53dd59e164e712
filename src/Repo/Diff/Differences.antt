-- ===== src/Repo/Diff/Differences.antt =====
-- `compute_entry_diff`: the two lists are the differences of the contents.
use elfshaker.Prelude.{
  ◌≡◌, refl, sym, ap, arith, true, not, ◌&&◌, ◌||◌, List, [], ◌∷◌, map, contains, All, Bool-cases,
  inl, inr,
}
use elfshaker.HashSet.{IsDistinct}
use elfshaker.PackIndex.Types.{FileEntry}
use elfshaker.PackIndex.Identity.Bytes.{
  Content, content_of, content_eq, content_beq, content_beq_iff,
}
use elfshaker.Repo.Diff.{
  Lookup, insert_entry, lookup_of, contains_key, missing_in, compute_entry_diff,
}

abbrev keys : Lookup → List Content
keys l = map (λ (p : Content × FileEntry). p.0) l

contains_key-insert_entry :
    (c : Content) (e : FileEntry) (l : Lookup) (k : Content)
    → contains_key (insert_entry c e l) k ≡ (content_beq c k || contains_key l k)
unfolding insert_entry
contains_key-insert_entry c e [] k = refl
contains_key-insert_entry c e ((d, f) ∷ l) k =
    let h = contains_key-insert_entry c e l k in ground (arith, h, content_beq_iff d c)

contains_key-lookup_of :
    (l : Lookup) (es : List FileEntry) (k : Content)
    → contains_key (lookup_of l es) k ≡ (contains_key l k || contains (map content_of es) k)
unfolding lookup_of
contains_key-lookup_of l [] k = ground arith
contains_key-lookup_of l (e ∷ es) k =
    let h = contains_key-lookup_of (insert_entry (content_of e) e l) es k in
    let i = contains_key-insert_entry (content_of e) e l k in ground (arith, h, i)

-- every key is that of its entry, and none stands twice
record IsLookup (l : Lookup) : Type 0 where
  keyed : All (λ (p : Content × FileEntry). p.0 ≡ content_of p.1) l
  distinct : IsDistinct (keys l)

insert_entry-IsKeyed :
    (e : FileEntry) (l : Lookup)
    → All (λ (p : Content × FileEntry). p.0 ≡ content_of p.1) l
    → All (λ (p : Content × FileEntry). p.0 ≡ content_of p.1) (insert_entry (content_of e) e l)
unfolding insert_entry
insert_entry-IsKeyed e [] h = (refl, tt)
insert_entry-IsKeyed e ((d, f) ∷ l) (h, hs) = elim (Bool-cases (content_beq d (content_of e))) [
  | inl same ↦ rw same ((content_beq_iff d (content_of e)).0 same, hs)
  | inr other ↦ rw other (h, insert_entry-IsKeyed e l hs)
]

insert_entry-IsDistinct :
    (c : Content) (e : FileEntry) (l : Lookup)
    → IsDistinct (keys l)
    → IsDistinct (keys (insert_entry c e l))
unfolding insert_entry
insert_entry-IsDistinct c e [] h = (refl, tt)
insert_entry-IsDistinct c e ((d, f) ∷ l) (h, hs) = elim (Bool-cases (content_beq d c)) [
  | inl same ↦ rw same (h, hs)
  | inr other ↦ rw other (
    (let i = contains_key-insert_entry c e l d in
        ground (arith, h, i, other, content_beq_iff d c, content_beq_iff c d)),
    insert_entry-IsDistinct c e l hs,
  )
]

lookup_of-IsLookup : (l : Lookup) (es : List FileEntry) → IsLookup l → IsLookup (lookup_of l es)
unfolding lookup_of
lookup_of-IsLookup l [] h = h
lookup_of-IsLookup l (e ∷ es) h = lookup_of-IsLookup (insert_entry (content_of e) e l) es (record {
  keyed = insert_entry-IsKeyed e l h.keyed;
  distinct = insert_entry-IsDistinct (content_of e) e l h.distinct;
})

module _ {ℓ} (P : FileEntry → Type ℓ) where
  abbrev Values : Lookup → Type ℓ
  Values = All (λ (p : Content × FileEntry). P p.1)

  insert_entry-Values :
      (c : Content) (e : FileEntry) (l : Lookup) → P e → Values l → Values (insert_entry c e l)
  unfolding insert_entry
  insert_entry-Values c e [] p h = (p, tt)
  insert_entry-Values c e ((d, f) ∷ l) p (h, hs) = elim (Bool-cases (content_beq d c)) [
    | inl same ↦ rw same (p, hs)
    | inr other ↦ rw other (h, insert_entry-Values c e l p hs)
  ]

  lookup_of-Values :
      (l : Lookup) (es : List FileEntry) → All P es → Values l → Values (lookup_of l es)
  unfolding lookup_of
  lookup_of-Values l [] p h = h
  lookup_of-Values l (e ∷ es) (p, ps) h =
      lookup_of-Values (insert_entry (content_of e) e l) es ps
        (insert_entry-Values (content_of e) e l p h)

  missing_in-All : (other l : Lookup) → Values l → All P (missing_in other l)
  unfolding missing_in
  missing_in-All other [] h = tt
  missing_in-All other ((c, e) ∷ l) (h, hs) = elim (Bool-cases (contains_key other c)) [
    | inl there ↦ rw there (missing_in-All other l hs)
    | inr missing ↦ rw missing (h, missing_in-All other l hs)
  ]

contains-missing_in :
    (other l : Lookup) (k : Content)
    → IsLookup l
    → contains (map content_of (missing_in other l)) k
      ≡ (contains_key l k && not (contains_key other k))
unfolding missing_in
contains-missing_in other [] k h = refl
contains-missing_in other ((c, e) ∷ l) k h =
    let i = contains-missing_in other l k (record { keyed = h.keyed.1; distinct = h.distinct.1 }) in
    let named : content_beq (content_of e) k ≡ content_beq c k =
      ap (λ d. content_beq d k) (sym h.keyed.0) in
    let alike : content_beq c k ≡ true → contains_key other k ≡ contains_key other c =
      λ q. ap (contains_key other) (sym ((content_beq_iff c k).0 q)) in
    elim (Bool-cases (contains_key other c)) [
      | inl there ↦ rw there (ground (arith, i, there, alike))
      | inr missing ↦ rw missing (ground (arith, i, missing, alike, named))
    ]

missing_in-IsDistinct :
    (other l : Lookup) → IsLookup l → IsDistinct (map content_of (missing_in other l))
unfolding missing_in
missing_in-IsDistinct other [] h = tt
missing_in-IsDistinct other ((c, e) ∷ l) h =
    let rest : IsLookup l = record { keyed = h.keyed.1; distinct = h.distinct.1 } in
    let i = missing_in-IsDistinct other l rest in
    elim (Bool-cases (contains_key other c)) [
      | inl there ↦ rw there i
      | inr missing ↦ rw missing (
        (let m = contains-missing_in other l c rest in
            let once = h.distinct.0 in
            let named : contains (map content_of (missing_in other l)) (content_of e)
                ≡ contains (map content_of (missing_in other l)) c =
              ap (contains (map content_of (missing_in other l))) (sym h.keyed.0) in
            ground (arith, m, once, named)),
        i,
      )
    ]

-- what is in the second list and not in the first, by contents
pub record IsDifference (from_entries to_entries added : List FileEntry) : Type 0 where
  pub members :
      (k : Content)
      → contains (map content_of added) k
        ≡ (contains (map content_of to_entries) k && not (contains (map content_of from_entries) k))
  pub distinct : IsDistinct (map content_of added)

missing_in-IsDifference :
    (from_entries to_entries : List FileEntry)
    → IsDifference from_entries to_entries
        (missing_in (lookup_of [] from_entries) (lookup_of [] to_entries))
missing_in-IsDifference from_entries to_entries =
    let none : IsLookup [] = record { keyed = tt; distinct = tt } in
    let t = lookup_of-IsLookup [] to_entries none in
    record {
      members = λ k.
          let m = contains-missing_in (lookup_of [] from_entries) (lookup_of [] to_entries) k t in
          let a = contains_key-lookup_of [] from_entries k in
          let b = contains_key-lookup_of [] to_entries k in ground (arith, m, a, b);
      distinct = missing_in-IsDistinct (lookup_of [] from_entries) (lookup_of [] to_entries) t;
    }

-- The entries that are added are those of the second list whose path, checksum and metadata the
-- first list has not, those removed the other way round, each once; and whatever holds of all
-- entries of a list holds of those that come from it.
pub compute_entry_diff-IsDifference {ℓ} :
    (P Q : FileEntry → Type ℓ) (from_entries to_entries : List FileEntry)
    → All P from_entries
    → All Q to_entries
    → IsDifference from_entries to_entries (compute_entry_diff from_entries to_entries).0
      × IsDifference to_entries from_entries (compute_entry_diff from_entries to_entries).1
      × All Q (compute_entry_diff from_entries to_entries).0
      × All P (compute_entry_diff from_entries to_entries).1
unfolding compute_entry_diff
compute_entry_diff-IsDifference P Q from_entries to_entries p q =
    let from_lookup = lookup_of [] from_entries in
    let to_lookup = lookup_of [] to_entries in
    (
      missing_in-IsDifference from_entries to_entries,
      missing_in-IsDifference to_entries from_entries,
      missing_in-All Q from_lookup to_lookup (lookup_of-Values Q [] to_entries q tt),
      missing_in-All P to_lookup from_lookup (lookup_of-Values P [] from_entries p tt),
    )
