-- ===== src/Repo/Pack.antt =====
-- repo/pack.rs: the frames of a pack file and the objects that are read from them.
pub mod Objects
pub mod Skippable
pub mod Groups
pub mod Position
pub mod Frames
use elfshaker.Prelude.{
  ℕ, suc, zero, ◌+◌, ◌-◌, ◌%◌, ◌/◌, ◌*◌, ◌^◌, Bool, true, false, Option, none, some, List, [], ◌∷◌,
  ◌++◌, map, concat, length, take, drop, leb, ltb, eqb, if◌then◌else◌, Result, ok, err, and_then,
  sort, min, max,
}
use elfshaker.Algo.{u64_mod, u32_mod, run_in_parallel}
use elfshaker.PackIndex.Types.{FileEntry, ObjectMetadata}

pub record PackFrame : Type 0 where
  pub frame_size : ℕ
  pub decompressed_size : ℕ

-- `Error::CorruptPack`, and the error that `read_exact` returns at the end of the stream
pub data Error : Type 0 where
  corrupt_pack unexpected_eof : Error

-- The loop of the two functions below. The sum of two `u64` keeps the low 64 bits.
pub running_offsets : ℕ → List ℕ → List ℕ
running_offsets offset [] = []
running_offsets offset (size ∷ sizes) = offset ∷ running_offsets ((size + offset) % u64_mod) sizes

abbrev pub frame_sizes : List PackFrame → List ℕ
frame_sizes = map (λ f. f.frame_size)

abbrev pub decompressed_sizes : List PackFrame → List ℕ
decompressed_sizes = map (λ f. f.decompressed_size)

pub compute_frame_offsets : List PackFrame → List ℕ
unfolding running_offsets
compute_frame_offsets frames = running_offsets 0 (frame_sizes frames)

pub compute_frame_decompressed_offset : List PackFrame → List ℕ
unfolding running_offsets
compute_frame_decompressed_offset frames = running_offsets 0 (decompressed_sizes frames)

-- `rposition(|&x| x <= offset)`: the index, and the element that stands there
pub rposition_le : ℕ → List ℕ → Option (ℕ × ℕ)
rposition_le offset [] = none
rposition_le offset (x ∷ xs) = elim (rposition_le offset xs) [
  | some (i, y) ↦ some (suc i, y)
  | none ↦ if leb x offset then some (0, x) else none
]

pub local_entry : ℕ → FileEntry → FileEntry
local_entry frame_offset entry = record entry {
  object_metadata = record {
    offset = entry.object_metadata.offset - frame_offset;
    size = entry.object_metadata.size;
  };
}

-- `frames[frame_index].push(local_entry)`
pub push_at {ℓ} : {A : Type ℓ} → ℕ → A → List (List A) → List (List A)
push_at i a [] = []
push_at zero a (xs ∷ xss) = (xs ++ a ∷ []) ∷ xss
push_at (suc i) a (xs ∷ xss) = xs ∷ push_at i a xss

pub assign_all :
    List ℕ → List (List FileEntry) → List FileEntry → Result Error (List (List FileEntry))
unfolding rposition_le push_at local_entry
assign_all offsets frames [] = ok frames
assign_all offsets frames (entry ∷ entries) =
    elim (rposition_le entry.object_metadata.offset offsets) [
      | none ↦ err corrupt_pack
      | some (i, frame_offset) ↦
          assign_all offsets (push_at i (local_entry frame_offset entry) frames) entries
    ]

-- `(0..frames.len()).map(|_| Vec::new()).collect()`
abbrev pub empty_groups : List PackFrame → List (List FileEntry)
empty_groups = map (λ _. [])

pub assign_to_frames : List PackFrame → List FileEntry → Result Error (List (List FileEntry))
unfolding compute_frame_decompressed_offset assign_all
assign_to_frames frames entries =
    assign_all (compute_frame_decompressed_offset frames) (empty_groups frames) entries

-- A `PackReader` is the decompressed bytes that it has not consumed; `seek` consumes up to `bytes`
-- of them and stops without an error at the end.
pub seek : ℕ → List ℕ → List ℕ
seek bytes reader = drop bytes reader

pub read_exact : ℕ → List ℕ → Result Error (List ℕ × List ℕ)
read_exact n reader =
    if ltb (length reader) n then err unexpected_eof else ok (take n reader, drop n reader)

-- the variables of the loop of `read_objects`
pub record ReadState : Type 0 where
  pub reader : List ℕ
  pub pos : ℕ
  pub buf : List ℕ

pub read_next : ReadState → ObjectMetadata → Result Error (List ℕ × ReadState)
unfolding seek read_exact
read_next s metadata =
    and_then (read_exact metadata.size (seek (metadata.offset - s.pos) s.reader)) λ got. ok (
      got.0,
      record { reader = got.1; pos = (metadata.offset + metadata.size) % u64_mod; buf = got.0 },
    )

-- one round of the loop: the bytes of the object
pub read_object : ReadState → ObjectMetadata → Result Error (List ℕ × ReadState)
unfolding read_next
read_object s metadata =
    if eqb metadata.size 0
    then ok ([], s)
    else if leb s.pos metadata.offset
    then read_next s metadata
    else ok (s.buf, s)

pub read_each : ReadState → List FileEntry → Result Error (List (FileEntry × List ℕ))
unfolding read_object
read_each s [] = ok []
read_each s (entry ∷ entries) =
    and_then (read_object s entry.object_metadata)
      λ got. and_then (read_each got.1 entries) λ objects. ok ((entry, got.0) ∷ objects)

abbrev pub offset_le : FileEntry → FileEntry → Bool
offset_le a b = leb a.object_metadata.offset b.object_metadata.offset

pub read_objects : List ℕ → List FileEntry → Result Error (List (FileEntry × List ℕ))
unfolding read_each
read_objects reader entries =
    read_each (record { reader = reader; pos = 0; buf = [] }) (sort offset_le entries)
