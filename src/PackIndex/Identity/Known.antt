-- ===== src/PackIndex/Identity/Known.antt =====
-- The handles of a snapshot and the contents that they stand for, packidx.rs.
use elfshaker.Prelude.{
  ◌≡◌, refl, ap, sym, ◌∙◌, arith, true, false, List, [], ◌∷◌, All, contains, returns, ok, ◌==◌,
  list_eq, nat_eq, list_beq_iff, Bool-cases, inl, inr,
}
use elfshaker.PackIndex.Types.{FileHandle, FileEntry, handle_eq}
use elfshaker.PackIndex.Index.{PackIndex, handle_to_entry}
use elfshaker.PackIndex.Index.Tables.{IsConsistent}
use elfshaker.PackIndex.Index.Entries.{Denotes, DenoteAll, handle_to_entry-Denotes}
use elfshaker.PackIndex.Identity.{handle_to_entry_ref, entry_refs_from_handles}
use elfshaker.PackIndex.Identity.Bytes.{Content, content_of, content_eq, content_beq_iff}
use elfshaker.PackIndex.Identity.Order.{HasDistinctPaths, Differs, All-contains}

-- a content of the list, with its handle
pub record Known (index : PackIndex) (contents : List Content) (h : FileHandle) : Type 0 where
  pub entry : FileEntry
  pub denotes : Denotes index h entry
  pub among : contains contents (content_of entry) ≡ true

abbrev pub KnownAll : PackIndex → List Content → List FileHandle → Type 0
KnownAll index contents = All (Known index contents)

-- in a list without a path twice, the path gives the content
pub by_path :
    (contents : List Content) (c d : Content)
    → HasDistinctPaths contents
    → contains contents c ≡ true
    → contains contents d ≡ true
    → c.path ≡ d.path
    → c ≡ d
by_path [] c d u h k e = cc
by_path (x ∷ xs) c d (a, u) h k e = elim (Bool-cases (x == c)) [
  | inl p ↦ elim (Bool-cases (x == d)) [
    | inl q ↦ sym ((content_beq_iff x c).0 p) ∙ (content_beq_iff x d).0 q
    | inr q ↦
        let there : contains xs d ≡ true = ground (arith, q, k) in
        let r : (x.path == d.path) ≡ false = All-contains (Differs x) d xs a there in
        let s = ap (λ (y : Content). y.path) ((content_beq_iff x c).0 p) in
        let t : (x.path == d.path) ≡ true = (list_beq_iff x.path d.path).1 (s ∙ e) in cc
  ]
  | inr p ↦ elim (Bool-cases (x == d)) [
    | inl q ↦
        let there : contains xs c ≡ true = ground (arith, p, h) in
        let r : (x.path == c.path) ≡ false = All-contains (Differs x) c xs a there in
        let s = ap (λ (y : Content). y.path) ((content_beq_iff x d).0 q) in
        let t : (x.path == c.path) ≡ true = (list_beq_iff x.path c.path).1 (s ∙ sym e) in cc
    | inr q ↦ by_path xs c d u (ground (arith, p, h)) (ground (arith, q, k)) e
  ]
]

-- handles of entries with one content are one
pub same_handle :
    (index : PackIndex) (h k : FileHandle) (x y : FileEntry)
    → IsConsistent index
    → Denotes index h x
    → Denotes index k y
    → content_of x ≡ content_of y
    → h ≡ k
same_handle index h k x y v d f e =
    let p = v.paths.interned x.path h.path d.path in
    let q = v.paths.interned y.path k.path f.path in
    let r = v.objects.interned x.checksum h.object d.object in
    let s = v.objects.interned y.checksum k.object f.object in
    let a = ap (λ (c : Content). c.path) e in
    let b = ap (λ (c : Content). c.checksum) e in
    let m = ap (λ (c : Content). c.metadata) e in
    ground (arith, p, q, r, s, rw (← a) at q, rw (← b) at s, d.metadata, f.metadata, m)

pub same_content :
    (index : PackIndex) (h : FileHandle) (x y : FileEntry)
    → Denotes index h x
    → Denotes index h y
    → content_of x ≡ content_of y
same_content index h x y d f =
    ground (arith, d.path, f.path, d.object, f.object, d.metadata, f.metadata)

-- the entries that the handles are read as
pub record Reads (index : PackIndex) (contents : List Content) (hs : List FileHandle) : Type 0 where
  pub entries : List FileEntry
  pub refs : entry_refs_from_handles index hs ≡ returns (ok entries)
  pub denote : DenoteAll index hs entries
  pub among : All (λ x. contains contents (content_of x) ≡ true) entries

pub handles-Reads :
    (index : PackIndex) (contents : List Content) (hs : List FileHandle)
    → IsConsistent index
    → KnownAll index contents hs
    → Reads index contents hs
unfolding entry_refs_from_handles handle_to_entry_ref handle_to_entry
handles-Reads index contents [] v k = record { entries = []; refs = refl; denote = tt; among = tt }
handles-Reads index contents (h ∷ hs) v (k, ks) =
    let rest = handles-Reads index contents hs v ks in
    let (m, p) = handle_to_entry-Denotes index h k.entry v k.denotes in
    let here : handle_to_entry_ref index h ≡ returns (ok (record k.entry { object_metadata = m })) =
      p in
    record {
      entries = record k.entry { object_metadata = m } ∷ rest.entries;
      refs = rw (here, rest.refs) refl;
      denote = (
        record { path = k.denotes.path; object = k.denotes.object; metadata = k.denotes.metadata },
        rest.denote,
      );
      among = (k.among, rest.among);
    }
