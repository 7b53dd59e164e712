-- ===== src/PackIndex/Identity/Push.antt =====
-- `push_snapshot` of packidx.rs against `compute_snapshot_checksum`.
use elfshaker.Prelude.{
  ℕ, suc, zero, ◌≡◌, refl, sym, arith, subst, Bool, true, false, some, List, [], ◌∷◌, map, length,
  All, contains, get_elem?, returns, ok, ◌==◌, list_eq, nat_eq, list_beq_iff, Bool-cases, inl, inr,
}
use elfshaker.HashSet.{IsDistinct}
use elfshaker.PackIndex.Types.{ObjectChecksum, FileHandle, FileEntry, handle_eq, handle_beq_iff}
use elfshaker.PackIndex.Index.{Tag, PackIndex, push_snapshot}
use elfshaker.PackIndex.Index.Tables.{IsConsistent, HasRoom}
use elfshaker.PackIndex.Index.Entries.{Denotes, DenoteAll}
use elfshaker.PackIndex.Index.History.{IsReplayable}
use elfshaker.PackIndex.Index.Push.{Represents, push_snapshot-resolve_snapshot}
use elfshaker.PackIndex.Identity.{identity_bytes, checksum_of, compute_snapshot_checksum}
use elfshaker.PackIndex.Identity.Bytes.{Content, content_of, content_eq, content_beq_iff}
use elfshaker.PackIndex.Identity.Order.{HasDistinctPaths, Differs}
use elfshaker.PackIndex.Identity.Members.{SameContents, identity_bytes-SameContents}
use elfshaker.PackIndex.Identity.Known.{KnownAll, by_path, same_handle, same_content, handles-Reads}

module _ (index : PackIndex) (contents : List Content) (v : IsConsistent index)
    (u : HasDistinctPaths contents) where
  Differs-from_All :
      (h : FileHandle) (x : FileEntry) (hs : List FileHandle) (xs : List FileEntry)
      → Denotes index h x
      → contains contents (content_of x) ≡ true
      → DenoteAll index hs xs
      → All (λ y. contains contents (content_of y) ≡ true) xs
      → contains hs h ≡ false
      → All (Differs (content_of x)) (map content_of xs)
  Differs-from_All h x [] [] d a ds bs c = tt
  Differs-from_All h x [] (y ∷ ys) d a ds bs c = elim ds [ ]
  Differs-from_All h x (k ∷ ks) [] d a ds bs c = tt
  Differs-from_All h x (k ∷ ks) (y ∷ ys) d a (f, ds) (b, bs) c =
      elim (Bool-cases (x.path == y.path)) [
        | inr other ↦ (other, Differs-from_All h x ks ys d a ds bs (ground (arith, c)))
        | inl equal ↦
            let e =
              by_path contents (content_of x) (content_of y) u a b
                ((list_beq_iff x.path y.path).0 equal) in
            let same = same_handle index h k x y v d f e in
            let out : (k == h) ≡ false = ground (arith, c) in
            let yes_ : (k == h) ≡ true = (handle_beq_iff k h).1 (sym same) in cc
      ]

  Reads-HasDistinctPaths :
      (hs : List FileHandle) (xs : List FileEntry)
      → DenoteAll index hs xs
      → All (λ y. contains contents (content_of y) ≡ true) xs
      → IsDistinct hs
      → HasDistinctPaths (map content_of xs)
  Reads-HasDistinctPaths [] [] ds bs d = tt
  Reads-HasDistinctPaths [] (y ∷ ys) ds bs d = elim ds [ ]
  Reads-HasDistinctPaths (h ∷ hs) [] ds bs d = tt
  Reads-HasDistinctPaths (h ∷ hs) (x ∷ xs) (f, ds) (b, bs) (once, d) =
      (Differs-from_All h x hs xs f b ds bs once, Reads-HasDistinctPaths hs xs ds bs d)

contains-get_elem? :
    (xs : List FileEntry) (i : ℕ) (x : FileEntry)
    → get_elem? xs i ≡ some x
    → contains (map content_of xs) (content_of x) ≡ true
contains-get_elem? [] i x p = cc
contains-get_elem? (y ∷ xs) zero x p =
    let e : y ≡ x = cc in rw e (ground (arith, content_beq_iff (content_of x) (content_of x)))
contains-get_elem? (y ∷ xs) (suc i) x p = ground (arith, contains-get_elem? xs i x p)

get_elem?-contains :
    (xs : List FileEntry) (c : Content)
    → contains (map content_of xs) c ≡ true
    → (i : ℕ) × (x : FileEntry) × (get_elem? xs i ≡ some x) × (content_of x ≡ c)
get_elem?-contains [] c h = cc
get_elem?-contains (y ∷ xs) c h = elim (Bool-cases (content_of y == c)) [
  | inl here ↦ (0, y, refl, (content_beq_iff (content_of y) c).0 here)
  | inr later ↦
      let (i, x, p, e) = get_elem?-contains xs c (ground (arith, later, h)) in (suc i, x, p, e)
]

read_content :
    (index : PackIndex) (hs : List FileHandle) (xs : List FileEntry) (h : FileHandle)
    (x : FileEntry)
    → DenoteAll index hs xs
    → contains hs h ≡ true
    → Denotes index h x
    → contains (map content_of xs) (content_of x) ≡ true
read_content index [] [] h x ds c d = cc
read_content index [] (y ∷ ys) h x ds c d = elim ds [ ]
read_content index (k ∷ ks) [] h x ds c d = elim ds [ ]
read_content index (k ∷ ks) (y ∷ ys) h x (f, ds) c d = elim (Bool-cases (k == h)) [
  | inl here ↦
      let g : Denotes index h y = subst (λ j. Denotes index j y) ((handle_beq_iff k h).0 here) f in
      let e = same_content index h y x g d in
      ground (arith, e, content_beq_iff (content_of y) (content_of x))
  | inr later ↦ ground (arith, read_content index ks ys h x ds (ground (arith, later, c)) d)
]

among-contains :
    (contents : List Content) (xs : List FileEntry) (c : Content)
    → All (λ y. contains contents (content_of y) ≡ true) xs
    → contains (map content_of xs) c ≡ true
    → contains contents c ≡ true
among-contains contents [] c a h = cc
among-contains contents (x ∷ xs) c (p, a) h = elim (Bool-cases (content_of x == c)) [
  | inl here ↦ subst (λ d. contains contents d ≡ true) ((content_beq_iff (content_of x) c).0 here) p
  | inr later ↦ among-contains contents xs c a (ground (arith, later, h))
]

equal_tests : (a b : Bool) → (a ≡ true → b ≡ true) → (b ≡ true → a ≡ true) → a ≡ b
equal_tests true b f g = sym (f refl)
equal_tests false true f g = g refl
equal_tests false false f g = refl

Represents-KnownAll :
    (index : PackIndex) (input : List FileEntry) (all hs : List FileHandle)
    → Represents index all input
    → ((h : FileHandle) → contains hs h ≡ true → contains all h ≡ true)
    → KnownAll index (map content_of input) hs
Represents-KnownAll index input all [] r below = tt
Represents-KnownAll index input all (h ∷ hs) r below =
    let (i, x, at, d) = r.sound h (below h (ground (arith, handle_beq_iff h h))) in
    (
      record { entry = x; denotes = d; among = contains-get_elem? input i x at },
      Represents-KnownAll index input all hs r (λ k p. below k (ground (arith, p))),
    )

-- The identity of a snapshot that was pushed is that of the entries, whatever the index held before
-- and in whatever order the handles come: the checksum hashes the identity bytes of the input. The
-- index is consistent and replayable and has room, the tag is fresh, and no path stands twice.
pub push_snapshot-compute_snapshot_checksum :
    (sha1 : List ℕ → ObjectChecksum) (index : PackIndex) (tag : Tag) (input : List FileEntry)
    → IsConsistent index
    → IsReplayable index
    → HasRoom index (length input)
    → contains index.snapshot_tags tag ≡ false
    → HasDistinctPaths (map content_of input)
    → (index' : PackIndex) × (push_snapshot index tag input ≡ returns (ok index'))
      × (compute_snapshot_checksum sha1 index' tag ≡ returns (some (sha1 (identity_bytes input))))
unfolding compute_snapshot_checksum checksum_of
push_snapshot-compute_snapshot_checksum sha1 index tag input c v room fresh paths =
    let (index', pushed, p) = push_snapshot-resolve_snapshot index tag input c v room fresh in
    let (s, found, r, d) = p.resolved in
    let contents = map content_of input in
    let known = Represents-KnownAll index' input s s r (λ h q. q) in
    let reads = handles-Reads index' contents s p.consistent known in
    let distinct =
      Reads-HasDistinctPaths index' contents p.consistent paths s reads.entries reads.denote
        reads.among d in
    let same : SameContents reads.entries input = λ k.
      equal_tests (contains (map content_of reads.entries) k) (contains contents k)
        (among-contains contents reads.entries k reads.among)
        (λ h.
          let (i, x, at, e) = get_elem?-contains input k h in
          let (j, there, f) = r.complete i x at in
          subst (λ y. contains (map content_of reads.entries) y ≡ true) e
            (read_content index' s reads.entries j x reads.denote there f)) in
    let equal = identity_bytes-SameContents reads.entries input distinct paths same in
    (index', pushed, rw (found, reads.refs, equal) refl)
