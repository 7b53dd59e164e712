-- ===== src/Runs/Wire.antt =====
-- Runs of the on-disk forms of packidx.rs.
use elfshaker.Prelude.{
  get_elem?, some, ℕ, ◌≤◌, ◌≡◌, refl, arith, some, List, [], ◌∷◌, length, ok, err, nat_eq, list_eq,
}
use elfshaker.Algo.{u32_mod}
use elfshaker.EntryPool
use elfshaker.PackIndex.Types.{ChangeSet, handle_eq}
use elfshaker.PackIndex.Index.{PackIndex, entry_to_handle}
use elfshaker.PackIndex.Index.Tables.{IsConsistent}
use elfshaker.PackIndex.Parts.{full, decode}
use elfshaker.PackIndex.Legacy.{LegacyFileHandle, LegacyEnvelope, parse_legacy}
use elfshaker.PackIndex.Legacy.Load.{legacy_envelope, AllPairs, LoadsChanges, parse_legacy-lookup}
use elfshaker.LegacyPath.{LegacyWirePath}
use elfshaker.LegacyPath.Pool.{DecodeTo}
use elfshaker.PackPath
use elfshaker.LegacyPath
use elfshaker.PackIndex.Wire.{parse, serialize, to_wire, V3Wire, Envelope}
use elfshaker.PackIndex.Wire.RoundTrip.{envelope_of, SameContent, parse-serialize}
use elfshaker.Runs.Index.{v1, one_entry, one_entry-IsConsistent}

-- what is written is not looked at when it is read
abbrev no_bytes : V3Wire → List ℕ
no_bytes w = []

abbrev no_legacy : List ℕ → LegacyEnvelope
no_legacy bytes = legacy_envelope [] [] [] [] []

one_entry_fits :
    (length one_entry.path_pool.entries ≤ u32_mod)
    × (length one_entry.object_pool.entries ≤ u32_mod)
unfolding entry_to_handle EntryPool.get_or_insert EntryPool.get EntryPool.map_get
    EntryPool.insert_new
one_entry_fits = (omega arith, omega arith)

parse-serialize_example :
    (index' : PackIndex) × (parse full
        (λ bytes. envelope_of (to_wire one_entry))
        no_legacy
        some
        (serialize no_bytes one_entry)
      ≡ ok index')
    × SameContent index' one_entry
    × IsConsistent index'
parse-serialize_example =
    parse-serialize no_bytes (λ bytes. envelope_of (to_wire one_entry)) no_legacy some one_entry
      refl one_entry-IsConsistent one_entry_fits.0 one_entry_fits.1

-- two tags, a feature that is not known, and tables that do not decode
abbrev future : Envelope
future = record {
  fields = ok 9;
  features = ok 3;
  snapshot_tags = ok (v1 ∷ []);
  snapshot_deltas = err decode;
  path_pool = err decode;
  object_pool = err decode;
  object_metadata = err decode;
  extensions = err decode;
}

-- "x\y" of Windows and "z" of Unix
abbrev two_wires : List LegacyWirePath
two_wires = LegacyPath.windows (b'x' ∷ 0x5c ∷ b'y' ∷ []) ∷ LegacyPath.unix (b'z' ∷ []) ∷ []

abbrev two_paths : List (List ℕ)
two_paths = (b'x' ∷ PackPath.slash ∷ b'y' ∷ []) ∷ (b'z' ∷ []) ∷ []

two_wires_decode : DecodeTo some two_wires two_paths
unfolding LegacyPath.decode LegacyPath.decode_windows PackPath.new PackPath.validate PackPath.split
    PackPath.check_components PackPath.check_component
two_wires_decode = (refl, (refl, tt))

abbrev legacy_changes : List (ChangeSet LegacyFileHandle)
legacy_changes =
    record { added = record { path = 1; object = 0; mode = 0o100755 } ∷ []; removed = [] } ∷ []

abbrev one_object : List (List ℕ)
one_object = (7 ∷ []) ∷ []

parse_legacy-lookup_example :
    (index : PackIndex) × (parse_legacy some full
        (legacy_envelope (v1 ∷ []) legacy_changes two_wires one_object [])
      ≡ ok index)
    × (index.snapshot_tags ≡ v1 ∷ [])
    × AllPairs (LoadsChanges two_paths one_object index) legacy_changes index.snapshot_deltas
    × ((h : ℕ) → EntryPool.lookup index.path_pool h ≡ get_elem? two_paths h)
parse_legacy-lookup_example =
    parse_legacy-lookup some (v1 ∷ []) legacy_changes two_wires one_object [] two_paths
      (refl, (refl, tt)) two_wires_decode (refl, (refl, tt)) (refl, tt)
