-- ===== src/Runs/Index.antt =====
-- Runs of packidx.rs.
use elfshaker.Prelude.{
  some, map, ℕ, ◌<◌, ◌≡◌, refl, arith, some, List, [], ◌∷◌, returns, ok, nat_eq, list_eq, map,
}
use elfshaker.Algo.{u64_mod}
use elfshaker.EntryPool.Interning.{new-IsInterned}
use elfshaker.HashSet.{IsDistinct}
use elfshaker.PackIndex.Types.{
  FileEntry, FileHandle, ChangeSet, regular, symlink, portable_utf8, file, handle_eq,
}
use elfshaker.PackIndex.Changes.{apply_changes}
use elfshaker.PackIndex.Index.{PackIndex, new, push_snapshot, resolve_snapshot, entry_to_handle}
use elfshaker.PackIndex.Index.Tables.{IsConsistent, HasRoom, entry_to_handle-IsConsistent}
use elfshaker.PackIndex.Index.History.{new-IsReplayable}
use elfshaker.PackIndex.Index.Push.{PushesSnapshot, push_snapshot-resolve_snapshot}
use elfshaker.PackIndex.Layout.{size_handle, compute_object_offsets_and_ordering}
use elfshaker.PackIndex.Layout.Offsets.{Table, total_size}
use elfshaker.PackIndex.Layout.Ordering.{Ordering, compute_object_offsets_and_ordering-Ordering}
use elfshaker.PackIndex.Layout.Apart.{Readable, compute_object_offsets_and_ordering-Readable}

-- "a" and "b", both with the contents whose checksum is 1, and a link "c"
abbrev entry_a : FileEntry
entry_a = record {
  path = b'a' ∷ [];
  checksum = 1 ∷ [];
  object_metadata = record { offset = 0; size = 5 };
  metadata = regular 0o100644;
}

abbrev entry_b : FileEntry
entry_b = record entry_a { path = b'b' ∷ [] }

abbrev entry_c : FileEntry
entry_c = record {
  path = b'c' ∷ [];
  checksum = 2 ∷ [];
  object_metadata = record { offset = 5; size = 1 };
  metadata = symlink portable_utf8 file;
}

abbrev three_entries : List FileEntry
three_entries = entry_a ∷ entry_b ∷ entry_c ∷ []

-- the tag "v1"
abbrev pub v1 : List ℕ
v1 = b'v' ∷ b'1' ∷ []

pub new-IsConsistent : IsConsistent new
new-IsConsistent = record {
  paths = new-IsInterned;
  objects = new-IsInterned;
  dense = tt;
  covered = refl;
}

push_snapshot-resolve_snapshot_example :
    (index' : PackIndex) × (push_snapshot new v1 three_entries ≡ returns (ok index'))
    × PushesSnapshot new v1 three_entries index'
push_snapshot-resolve_snapshot_example =
    push_snapshot-resolve_snapshot new v1 three_entries new-IsConsistent new-IsReplayable
      (record { paths = omega arith; objects = omega arith }) refl

abbrev pub one_entry : PackIndex
one_entry = (entry_to_handle new entry_a).0

new_room : HasRoom new 1
new_room = record { paths = omega arith; objects = omega arith }

pub one_entry-IsConsistent : IsConsistent one_entry
one_entry-IsConsistent = entry_to_handle-IsConsistent new entry_a new-IsConsistent new_room

abbrev before : List ℕ
before = 1 ∷ 2 ∷ 3 ∷ []

abbrev next : List ℕ
next = 2 ∷ 3 ∷ 4 ∷ []

before-IsDistinct : IsDistinct before
before-IsDistinct = (refl, (refl, (refl, tt)))

next-IsDistinct : IsDistinct next
next-IsDistinct = (refl, (refl, (refl, tt)))

abbrev drop_one : ChangeSet ℕ
drop_one = record { added = 9 ∷ []; removed = 1 ∷ [] }

applied : apply_changes before drop_one ≡ returns (9 ∷ 2 ∷ 3 ∷ [])
unfolding apply_changes
applied = refl

abbrev handle : ℕ → FileHandle
handle n = record { path = n; object = 0; metadata = regular 0o100644 }

-- two snapshots, the second with a file less
abbrev two_snapshots : PackIndex
two_snapshots = record new {
  snapshot_tags = v1 ∷ (b'v' ∷ b'2' ∷ []) ∷ [];
  snapshot_deltas =
      record { added = handle 0 ∷ handle 1 ∷ []; removed = [] }
      ∷ record { added = []; removed = handle 0 ∷ [] }
      ∷ [];
}

v2_resolves : resolve_snapshot two_snapshots (b'v' ∷ b'2' ∷ []) ≡ returns (some (handle 1 ∷ []))
unfolding resolve_snapshot apply_changes
v2_resolves = refl

-- three objects of different sizes
abbrev sized : PackIndex
sized = record new {
  object_metadata =
      (0, record { offset = 7; size = 30 })
      ∷ (1, record { offset = 7; size = 10 })
      ∷ (2, record { offset = 7; size = 20 })
      ∷ [];
}

sized_total : total_size (size_handle sized.object_metadata) < u64_mod
unfolding total_size size_handle
sized_total = omega arith

compute_object_offsets_and_ordering-Ordering_example :
    (table : Table) × (order : List (ℕ × ℕ)) × (compute_object_offsets_and_ordering sized
      ≡ returns (record sized { object_metadata = table }, map (λ p. p.1) order))
    × Ordering sized table order
compute_object_offsets_and_ordering-Ordering_example =
    compute_object_offsets_and_ordering-Ordering sized (refl, (refl, (refl, tt))) sized_total

compute_object_offsets_and_ordering-Readable_example :
    (table : Table) × (handles : List ℕ) × (compute_object_offsets_and_ordering sized
      ≡ returns (record sized { object_metadata = table }, handles))
    × Readable sized table
compute_object_offsets_and_ordering-Readable_example =
    compute_object_offsets_and_ordering-Readable sized (refl, (refl, (refl, tt))) sized_total
