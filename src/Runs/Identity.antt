-- ===== src/Runs/Identity.antt =====
-- Runs of the identity of a snapshot, packidx.rs.
use elfshaker.Prelude.{ℕ, ◌≡◌, ◌↔◌, refl, arith, some, List, [], ◌∷◌, returns, ok}
use elfshaker.PackIndex.Types.{FileEntry, regular, symlink, portable_utf8, file}
use elfshaker.PackIndex.Index.{PackIndex, new, push_snapshot}
use elfshaker.PackIndex.Index.History.{new-IsReplayable}
use elfshaker.PackIndex.Identity.{identity_bytes, compute_snapshot_checksum}
use elfshaker.PackIndex.Identity.Members.{IsSnapshot, SameContents, identity_bytes_iff}
use elfshaker.PackIndex.Identity.Push.{push_snapshot-compute_snapshot_checksum}
use elfshaker.Runs.Index.{v1, new-IsConsistent}

abbrev digest : ℕ → List ℕ
digest n =
    n ∷ 2 ∷ 3 ∷ 4 ∷ 5 ∷ 6 ∷ 7 ∷ 8 ∷ 9 ∷ 10 ∷ 11 ∷ 12 ∷ 13 ∷ 14 ∷ 15 ∷ 16 ∷ 17 ∷ 18 ∷ 19 ∷ 20 ∷ []

abbrev program : FileEntry
program = record {
  path = b'b' ∷ [];
  checksum = digest 1;
  object_metadata = record { offset = 0; size = 5 };
  metadata = regular 0o100755;
}

abbrev link : FileEntry
link = record {
  path = b'a' ∷ [];
  checksum = digest 7;
  object_metadata = record { offset = 5; size = 1 };
  metadata = symlink portable_utf8 file;
}

abbrev one_order : List FileEntry
one_order = program ∷ link ∷ []

-- the other order, and the object at another place
abbrev other_order : List FileEntry
other_order = link ∷ record program { object_metadata = record { offset = 9; size = 5 } } ∷ []

one_order-IsSnapshot : IsSnapshot one_order
one_order-IsSnapshot = record {
  few = omega arith;
  fit = (
    record { path = omega arith; checksum = refl; mode = omega arith },
    (record { path = omega arith; checksum = refl; mode = tt }, tt),
  );
  paths = ((refl, tt), (tt, tt));
}

other_order-IsSnapshot : IsSnapshot other_order
other_order-IsSnapshot = record {
  few = omega arith;
  fit = (
    record { path = omega arith; checksum = refl; mode = tt },
    (record { path = omega arith; checksum = refl; mode = omega arith }, tt),
  );
  paths = ((refl, tt), (tt, tt));
}

identity_bytes_iff_example :
    (identity_bytes one_order ≡ identity_bytes other_order) ↔ SameContents one_order other_order
identity_bytes_iff_example =
    identity_bytes_iff one_order other_order one_order-IsSnapshot other_order-IsSnapshot

abbrev first_bytes : List ℕ → List ℕ
first_bytes bytes = bytes

push_snapshot-compute_snapshot_checksum_example :
    (index' : PackIndex) × (push_snapshot new v1 one_order ≡ returns (ok index'))
    × (compute_snapshot_checksum first_bytes index' v1
        ≡ returns (some (first_bytes (identity_bytes one_order))))
push_snapshot-compute_snapshot_checksum_example =
    push_snapshot-compute_snapshot_checksum first_bytes new v1 one_order new-IsConsistent
      new-IsReplayable (record { paths = omega arith; objects = omega arith }) refl
      one_order-IsSnapshot.paths
