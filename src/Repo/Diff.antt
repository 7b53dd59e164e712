-- ===== src/Repo/Diff.antt =====
-- `compute_entry_diff` of repo/repository.rs: what one list of entries has and another has not.
pub mod Differences
use elfshaker.Prelude.{Bool, true, false, List, [], ◌∷◌, map, contains, if◌then◌else◌, Eq, ◌==◌}
use elfshaker.PackIndex.Types.{FileEntry}
use elfshaker.PackIndex.Identity.Bytes.{Content, content_of, content_eq}

-- The `HashMap` from path, checksum and metadata; its order stands for the unspecified one.
abbrev pub Lookup : Type 0
Lookup = List (Content × FileEntry)

-- `HashMap::insert`: a key that is there keeps its place and gets the value
unfoldable pub insert_entry : Content → FileEntry → Lookup → Lookup
insert_entry c e [] = (c, e) ∷ []
insert_entry c e ((d, f) ∷ l) =
    let rest = insert_entry c e l in if d == c then (d, e) ∷ l else (d, f) ∷ rest

-- `collect()`, onto what is there
unfoldable pub lookup_of : Lookup → List FileEntry → Lookup
unfolding insert_entry
lookup_of l [] = l
lookup_of l (e ∷ es) = lookup_of (insert_entry (content_of e) e l) es

abbrev pub contains_key : Lookup → Content → Bool
contains_key l c = contains (map (λ (p : Content × FileEntry). p.0) l) c

-- one of the two loops: the entries whose key the other map has not
unfoldable pub missing_in : Lookup → Lookup → List FileEntry
missing_in other [] = []
missing_in other ((c, e) ∷ l) =
    let rest = missing_in other l in if contains_key other c then rest else e ∷ rest

-- added and removed
unfoldable pub compute_entry_diff :
    List FileEntry → List FileEntry → List FileEntry × List FileEntry
unfolding lookup_of missing_in
compute_entry_diff from_entries to_entries =
    let from_lookup = lookup_of [] from_entries in
    let to_lookup = lookup_of [] to_entries in
    (missing_in from_lookup to_lookup, missing_in to_lookup from_lookup)
