-- ===== src/PackIndex/Identity/Members.antt =====
-- `compute_snapshot_checksum` of packidx.rs: what the identity of a snapshot tells.
use elfshaker.Prelude.{
  ◌<◌, ◌≡◌, ◌↔◌, refl, ap, sym, ◌∙◌, arith, List, ◌++◌, map, length, All, contains, sort, All-sort,
  length-map,
}
use elfshaker.Algo.{u64_mod}
use elfshaker.PackIndex.Types.{FileEntry}
use elfshaker.PackIndex.Identity.{
  path_le, identity_header, u64_to_be_bytes, entries_bytes, sorted_bytes, identity_bytes,
}
use elfshaker.PackIndex.Identity.Bytes.{
  Content, content_of, content_eq, Fits, append-injective, u64_to_be_bytes-injective,
  entries_bytes-injective, entries_bytes-content_of,
}
use elfshaker.PackIndex.Identity.Order.{
  content_le, HasDistinctPaths, map-sort, length-sort, contains-sort, sorted_unique,
  IsSorted-contents,
}

-- Entries that the identity can be taken of: few and small enough to be counted, no path twice.
pub record IsSnapshot (entries : List FileEntry) : Type 0 where
  pub few : length entries < u64_mod
  pub fit : All Fits entries
  pub paths : HasDistinctPaths (map content_of entries)

abbrev pub SameContents : List FileEntry → List FileEntry → Type 0
SameContents xs ys = (c : Content) → contains (map content_of xs) c ≡ contains (map content_of ys) c

sorted_bytes-injective :
    (xs ys : List FileEntry)
    → length xs < u64_mod
    → length ys < u64_mod
    → All Fits xs
    → All Fits ys
    → sorted_bytes xs ≡ sorted_bytes ys
    → map content_of xs ≡ map content_of ys
unfolding sorted_bytes
sorted_bytes-injective xs ys l k f g e =
    let (_, rest) =
      append-injective identity_header identity_header
        (u64_to_be_bytes (length xs) ++ entries_bytes xs)
        (u64_to_be_bytes (length ys) ++ entries_bytes ys) refl e in
    let (n, body) =
      u64_to_be_bytes-injective (length xs) (length ys) (entries_bytes xs) (entries_bytes ys) l k
        rest in
    entries_bytes-injective xs ys n f g body

sorted_bytes-content_of :
    (xs ys : List FileEntry)
    → map content_of xs ≡ map content_of ys
    → sorted_bytes xs ≡ sorted_bytes ys
unfolding sorted_bytes
sorted_bytes-content_of xs ys e =
    let n : length xs ≡ length ys =
      sym (length-map content_of xs) ∙ ap length e ∙ length-map content_of ys in
    rw (n, entries_bytes-content_of xs ys e) refl

-- Only the contents matter, not their order.
pub identity_bytes-SameContents :
    (xs ys : List FileEntry)
    → HasDistinctPaths (map content_of xs)
    → HasDistinctPaths (map content_of ys)
    → SameContents xs ys
    → identity_bytes xs ≡ identity_bytes ys
unfolding identity_bytes
identity_bytes-SameContents xs ys v w same =
    let (s, d) = IsSorted-contents (map content_of xs) v in
    let (t, e) = IsSorted-contents (map content_of ys) w in
    let equal =
      sorted_unique (sort content_le (map content_of xs)) (sort content_le (map content_of ys)) s t
        d e
        λ c.
          contains-sort c (map content_of xs)
          ∙ same c
          ∙ sym (contains-sort c (map content_of ys)) in
    sorted_bytes-content_of (sort path_le xs) (sort path_le ys)
      (map-sort xs ∙ equal ∙ sym (map-sort ys))

-- The bytes that are hashed agree exactly where the two snapshots have the same paths with the same
-- checksums and metadata, in whatever order and wherever the objects stand. In a snapshot no path
-- stands twice, a checksum has 20 bytes and a mode 32 bits, and the lengths fit 64 bits.
pub identity_bytes_iff :
    (xs ys : List FileEntry)
    → IsSnapshot xs
    → IsSnapshot ys
    → (identity_bytes xs ≡ identity_bytes ys) ↔ SameContents xs ys
unfolding identity_bytes
identity_bytes_iff xs ys v w = (
  λ e c.
      let same : map content_of (sort path_le xs) ≡ map content_of (sort path_le ys) =
        sorted_bytes-injective (sort path_le xs) (sort path_le ys)
          (omega (arith, length-sort xs, v.few)) (omega (arith, length-sort ys, w.few))
          (All-sort path_le Fits xs v.fit) (All-sort path_le Fits ys w.fit) e in
      sym (contains-sort c (map content_of xs))
      ∙ ap (λ l. contains l c) (sym (map-sort xs) ∙ same ∙ map-sort ys)
      ∙ contains-sort c (map content_of ys),
  identity_bytes-SameContents xs ys v.paths w.paths,
)
