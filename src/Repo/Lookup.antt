-- ===== src/Repo/Lookup.antt =====
-- How repo/repository.rs finds the pack of a snapshot, and chooses where several packs have it.
pub mod Agree
pub mod Listing
use elfshaker.Prelude.{
  ℕ, Bool, true, false, not, ◌&&◌, ◌||◌, Option, none, some, List, [], ◌∷◌, ◌++◌, leb, lex, sort,
  if◌then◌else◌, Result, ok, err, and_then, map_err, Run, returns, panics, ◌>>=◌, contains, Eq,
  ◌==◌, list_eq, nat_eq, list_beq, list_beq_iff, ◌≡◌, ◌↔◌, arith, ap,
}
use elfshaker.PackIndex.Types.{ObjectChecksum}
use elfshaker.PackIndex.Index.{Tag, PackIndex}
use elfshaker.PackIndex.Identity.{compute_snapshot_checksum}
use elfshaker.PackPath.{slash}
use elfshaker.Repo.Id.{
  Str, IdError, PackId, pack, SnapshotId, name_of, strip_prefix, loose_prefix, is_some,
  from_index_path, for_loose_snapshot, validate, new, from_str,
}

-- the errors of `Error` that these operations return; `load` is one of reading or parsing a file,
-- and `utf8` has the name that is no text
pub data Error : Type 0 where
  id : IdError → Error
  io : ℕ → Error
  walk_dir : ℕ → Error
  utf8 : Error
  load : ℕ → Error
  corrupt_pack_index : Error
  snapshot_not_found : Tag → Error
  ambiguous_snapshot_match : Tag → List PackId → Error

abbrev pub pack_beq : PackId → PackId → Bool
pack_beq a b = name_of a == name_of b

pack_beq→eq : (a b : PackId) → pack_beq a b ≡ true → a ≡ b
pack_beq→eq (pack x) (pack y) h = ap pack ((list_beq_iff x y).0 h)

pub pack_beq_iff : (a b : PackId) → (pack_beq a b ≡ true) ↔ (a ≡ b)
pack_beq_iff a b = (pack_beq→eq a b, λ p. (list_beq_iff (name_of a) (name_of b)).1 (ap name_of p))

instance abbrev pub pack_eq : Eq PackId
pack_eq = record { beq = pack_beq; beq_iff = pack_beq_iff }

-- An entry of the walk of the packs directory: the components of its path from there, of which
-- some may not be UTF-8, and what `load_only_snapshots` gives for it.
pub record PackFile : Type 0 where
  pub is_file : Bool
  pub path : List (Option Str)
  pub tags : Result Error (List Tag)

-- What the file system holds: the fault of `create_dir_all` at the packs directory, if there is one,
-- the entries or errors in the order of the walk, which index files are there, and what loading the index of a pack gives, whole or its tags only. `sha1` is the digest, and
-- `is_graphic` the general category of a character.
pub record Storage : Type 0 where
  pub create_root : Option ℕ
  pub walk : List (Result ℕ PackFile)
  pub exists : Str → Bool
  pub index : Str → Result Error PackIndex
  pub tags : Str → Result Error (List Tag)
  pub sha1 : List ℕ → ObjectChecksum
  pub is_graphic : ℕ → Bool

abbrev pub starts_with_loose : Str → Bool
starts_with_loose name = is_some (strip_prefix loose_prefix name)

abbrev pub pack_le : PackId → PackId → Bool
pack_le a b = lex leb (name_of a) (name_of b)

-- `Option` of a checksum, compared
abbrev pub option_beq : Option ObjectChecksum → Option ObjectChecksum → Bool
option_beq none none = true
option_beq (some a) (some b) = a == b
option_beq _ _ = false

-- `components.join("/")`
unfoldable pub join : List Str → Str
join [] = []
join (c ∷ []) = c
join (c ∷ d ∷ cs) = c ++ slash ∷ join (d ∷ cs)

unfoldable pub utf8_components : List (Option Str) → Result Error (List Str)
utf8_components [] = ok []
utf8_components (none ∷ cs) = err utf8
utf8_components (some c ∷ cs) = and_then (utf8_components cs) λ rest. ok (c ∷ rest)

unfoldable pub logical_pack_id_path : List (Option Str) → Result Error Str
unfolding utf8_components join
logical_pack_id_path components = and_then (utf8_components components) λ cs. ok (join cs)

module _ (st : Storage) where
  -- `match load_only_snapshots(..).as_slice() { [tag] => .., _ => .. }`
  unfoldable pub loose_pack_of : List Tag → Result Error PackId
  loose_pack_of (tag ∷ []) = map_err id (for_loose_snapshot st.is_graphic tag)
  loose_pack_of _ = err corrupt_pack_index

  -- the pack that a path names, where it is that of an index
  unfoldable pub discovered_pack : Result Error (List Tag) → Str → Result Error (Option PackId)
  discovered_pack loaded relative = elim (from_index_path relative) [
    | none ↦ ok none
    | some discovered ↦
        let named = and_then loaded λ tags. and_then (loose_pack_of tags) λ p. ok (some p) in
        if starts_with_loose (name_of discovered) then named else ok (some discovered)
  ]

  -- the pack of an entry of the walk, if it is an index
  unfoldable pub pack_of : PackFile → Result Error (Option PackId)
  pack_of file =
      if file.is_file
      then and_then (logical_pack_id_path file.path) (discovered_pack file.tags)
      else ok none

  unfoldable pub packs_of : List (Result ℕ PackFile) → Result Error (List PackId)
  packs_of [] = ok []
  packs_of (entry ∷ entries) = and_then (map_err walk_dir entry) λ file.
      and_then (pack_of file) λ found.
        and_then (packs_of entries) λ rest. (elim found [ none ↦ ok rest | some p ↦ ok (p ∷ rest) ])

  unfoldable pub packs : Result Error (List PackId)
  packs = elim st.create_root [
    | some fault ↦ err (io fault)
    | none ↦ and_then (packs_of st.walk) λ found. ok (sort pack_le found)
  ]

  unfoldable pub is_pack_loose : PackId → Bool
  is_pack_loose p =
      not (is_some (validate st.is_graphic p))
      && starts_with_loose (name_of p)
      && st.exists (name_of p)

  abbrev pub validated {ℓ} : {A : Type ℓ} → PackId → Result Error A → Result Error A
  validated p result = elim (validate st.is_graphic p) [ some e ↦ err (id e) | none ↦ result ]

  unfoldable pub load_index : PackId → Result Error PackIndex
  load_index p = validated p (st.index (name_of p))

  unfoldable pub load_index_snapshots : PackId → Result Error (List Tag)
  load_index_snapshots p = validated p (st.tags (name_of p))

  -- one step of `are_snapshots_equal`: `expect` at an index that cannot be loaded
  unfoldable pub snapshot_checksum : Tag → PackId → Run (Option ObjectChecksum)
  snapshot_checksum snapshot p = elim (load_index p) [
    | err e ↦ panics
    | ok index ↦ compute_snapshot_checksum st.sha1 index snapshot
  ]

  -- `snapshot_checksums.all(|checksum| checksum == first)`
  unfoldable pub all_equal : Tag → Option ObjectChecksum → List PackId → Run Bool
  all_equal snapshot first [] = returns true
  all_equal snapshot first (p ∷ ps) =
      let rest = all_equal snapshot first ps in
      snapshot_checksum snapshot p >>= λ checksum.
      (if option_beq checksum first then rest else returns false)

  unfoldable pub are_snapshots_equal : List PackId → Tag → Run Bool
  are_snapshots_equal [] snapshot = panics
  are_snapshots_equal (p ∷ ps) snapshot =
      snapshot_checksum snapshot p >>= λ first. all_equal snapshot first ps

  -- `packs.iter().find(|pack| self.is_pack_loose(pack))`
  unfoldable pub find_loose : List PackId → Option PackId
  find_loose [] = none
  find_loose (p ∷ ps) = let rest = find_loose ps in if is_pack_loose p then some p else rest

  -- `loose.unwrap_or(&packs[0])`
  unfoldable pub selected : List PackId → Run PackId
  selected [] = panics
  selected (p ∷ ps) = elim (find_loose (p ∷ ps)) [ some q ↦ returns q | none ↦ returns p ]

  unfoldable pub disambiguate_snapshot : List PackId → Tag → Run (Result Error PackId)
  disambiguate_snapshot ps snapshot = are_snapshots_equal ps snapshot >>= λ same.
      (if same
        then (selected ps >>= λ p. returns (ok p))
        else returns (err (ambiguous_snapshot_match snapshot ps)))

  -- the packs that list the tag
  unfoldable pub packs_with : Tag → List PackId → Result Error (List PackId)
  packs_with snapshot [] = ok []
  packs_with snapshot (p ∷ ps) = and_then (load_index_snapshots p) λ tags.
      and_then (packs_with snapshot ps)
        λ rest. ok (if contains tags snapshot then p ∷ rest else rest)

  unfoldable pub choose : List PackId → Tag → Run (Result Error PackId)
  choose [] snapshot = returns (err (snapshot_not_found snapshot))
  choose (p ∷ []) snapshot = returns (ok p)
  choose (p ∷ q ∷ ps) snapshot = disambiguate_snapshot (p ∷ q ∷ ps) snapshot

  unfoldable pub find_pack_with_snapshot : Tag → Run (Result Error PackId)
  find_pack_with_snapshot snapshot = elim (and_then packs λ all. packs_with snapshot all) [
    | err e ↦ returns (err e)
    | ok found ↦ choose found snapshot
  ]

  unfoldable pub find_snapshot : Str → Run (Result Error SnapshotId)
  find_snapshot text = elim (from_str st.is_graphic text) [
    | ok s ↦ returns (ok s)
    | err bad ↦ find_pack_with_snapshot text >>= λ found.
        returns (and_then found λ p. map_err id (new st.is_graphic p text))
  ]
