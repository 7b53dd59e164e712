-- ===== src/Runs/Packs.antt =====
-- Runs of repo/pack.rs, and of the garbage collection.
use elfshaker.Prelude.{
  contains, not, ◌&&◌, list_eq, nat_eq, ℕ, ◌≡◌, refl, inl, inr, arith, some, List, [], ◌∷◌, ◌++◌,
  ok, length, map, concat, get_elem?, sort,
}
use elfshaker.PackIndex.Types.{ObjectChecksum, FileEntry, regular}
use elfshaker.PackIndex.Index
use elfshaker.PackIndex.Index.{PackIndex}
use elfshaker.Repo.Gc.{find_unreferenced_objects}
use elfshaker.Repo.Gc.Unreferenced.{is_referenced, find_unreferenced_objects-is_referenced}
use elfshaker.Repo.Pack.{Error, PackFrame, assign_to_frames, read_objects, offset_le}
use elfshaker.Repo.Pack.Objects.{slice, read_objects-slices}
use elfshaker.Repo.Pack.Frames.{Delivered, assign_to_frames-Delivered}
use elfshaker.Repo.Pack.Skippable.{
  read_skippable_frame, write_skippable_frame, read_skippable_frame-write_skippable_frame,
}

abbrev entry : ℕ → ℕ → ℕ → FileEntry
entry name offset size = record {
  path = name ∷ [];
  checksum = [];
  object_metadata = record { offset = offset; size = size };
  metadata = regular 0o100644;
}

-- two paths with one object, one with the object before it, and an empty file
abbrev stream : List ℕ
stream = 11 ∷ 12 ∷ 13 ∷ 14 ∷ 15 ∷ []

abbrev shared : List FileEntry
shared = entry b'a' 2 3 ∷ entry b'b' 2 3 ∷ entry b'c' 0 2 ∷ entry b'd' 0 0 ∷ []

read_objects-slices_example :
    read_objects stream shared
    ≡ ok (map (λ e. (e, slice stream e.object_metadata)) (sort offset_le shared))
read_objects-slices_example =
    read_objects-slices stream shared
      (
        (inr (inr (inl refl)), (inr (inr (inr (inr (omega arith)))), (inr (inl refl), tt))),
        (
          (inr (inr (inr (inr (omega arith)))), (inr (inl refl), tt)),
          ((inr (inl refl), tt), (tt, tt)),
        ),
      )
      (omega arith, (omega arith, (omega arith, (omega arith, tt)))) (omega arith)

abbrev two_streams : List (List ℕ)
two_streams = (11 ∷ 12 ∷ []) ∷ (13 ∷ 14 ∷ 15 ∷ []) ∷ []

abbrev two_frames : List PackFrame
two_frames =
    record { frame_size = 40; decompressed_size = 2 }
    ∷ record { frame_size = 60; decompressed_size = 3 }
    ∷ []

abbrev spread : List FileEntry
spread = entry b'a' 2 3 ∷ entry b'c' 0 2 ∷ []

assign_to_frames-Delivered_example :
    (groups : List (List FileEntry)) × (assign_to_frames two_frames spread ≡ ok groups)
    × (length (concat groups) ≡ length spread)
    × ((k : ℕ) (e : FileEntry) → get_elem? spread k ≡ some e → Delivered two_streams groups e)
assign_to_frames-Delivered_example =
    assign_to_frames-Delivered two_frames two_streams refl (omega arith) spread (
      record {
        before = (11 ∷ 12 ∷ []) ∷ [];
        stream = 13 ∷ 14 ∷ 15 ∷ [];
        behind = [];
        whole = refl;
        starts = omega arith;
        ends = omega arith;
      },
      (
        record {
          before = [];
          stream = 11 ∷ 12 ∷ [];
          behind = (13 ∷ 14 ∷ 15 ∷ []) ∷ [];
          whole = refl;
          starts = omega arith;
          ends = omega arith;
        },
        tt,
      ),
    )

read_skippable_frame-write_skippable_frame_example :
    read_skippable_frame ((write_skippable_frame (1 ∷ 2 ∷ [])).0 ++ 3 ∷ [])
    ≡ ok (((write_skippable_frame (1 ∷ 2 ∷ [])).1, 1 ∷ 2 ∷ []), 3 ∷ [])
read_skippable_frame-write_skippable_frame_example =
    read_skippable_frame-write_skippable_frame (1 ∷ 2 ∷ []) (3 ∷ []) (omega arith)

-- "1" is packed and "2" is not
abbrev pack_of_one : PackIndex
pack_of_one = record Index.new {
  object_pool = record { entries = (1 ∷ []) ∷ []; entry_map = (1 ∷ [], 0) ∷ [] };
}

find_unreferenced_objects-is_referenced_example :
    (reported : List ObjectChecksum) × (find_unreferenced_objects {E = Error}
        ((1 ∷ []) ∷ (2 ∷ []) ∷ [])
        (map ok (pack_of_one ∷ []))
      ≡ ok reported)
    × ((x : ObjectChecksum)
        → contains reported x
          ≡ (contains ((1 ∷ []) ∷ (2 ∷ []) ∷ []) x && not (is_referenced (pack_of_one ∷ []) x)))
find_unreferenced_objects-is_referenced_example =
    find_unreferenced_objects-is_referenced {E = Error} ((1 ∷ []) ∷ (2 ∷ []) ∷ [])
      (pack_of_one ∷ [])
