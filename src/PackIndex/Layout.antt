-- ===== src/PackIndex/Layout.antt =====
-- `compute_object_offsets_and_ordering` of packidx.rs: where the objects stand in a new pack.
pub mod Offsets
pub mod Handles
pub mod Ordering
pub mod Apart
use elfshaker.Prelude.{
  ℕ, ◌+◌, ◌%◌, Bool, Option, none, some, List, [], ◌∷◌, map, leb, eqb, if◌then◌else◌, Run, returns,
  panics, ◌>>=◌, unwrap, sort,
}
use elfshaker.Algo.{u64_mod, partition_by_u64}
use elfshaker.BTreeMap
use elfshaker.EntryPool.{Handle}
use elfshaker.PackIndex.Types.{ObjectMetadata}
use elfshaker.PackIndex.Index.{PackIndex}

-- `.map(|(handle, om)| (om.size, *handle)).collect()`
unfoldable pub size_handle : List (Handle × ObjectMetadata) → List (ℕ × Handle)
size_handle [] = []
size_handle ((handle, om) ∷ rest) = (om.size, handle) ∷ size_handle rest

-- the order of pairs of numbers
abbrev pub pair_le : ℕ × Handle → ℕ × Handle → Bool
pair_le a b = if eqb a.0 b.0 then leb a.1 b.1 else leb a.0 b.0

-- `get_mut(handle)`, and the offset set in what it finds
pub set_offset :
    Handle → ℕ → List (Handle × ObjectMetadata) → Option (List (Handle × ObjectMetadata))
set_offset handle offset [] = none
set_offset handle offset ((j, om) ∷ rest) =
    let later = set_offset handle offset rest in
    if eqb j handle
    then some ((j, record { offset = offset; size = om.size }) ∷ rest)
    else elim later [ none ↦ none | some rest' ↦ some ((j, om) ∷ rest') ]

pub set_offsets :
    ℕ → List (ℕ × Handle) → List (Handle × ObjectMetadata) → Run (List (Handle × ObjectMetadata))
unfolding set_offset
set_offsets offset [] table = returns table
set_offsets offset ((size, handle) ∷ rest) table = do
  table' ← unwrap (set_offset handle offset table)
  set_offsets ((offset + size) % u64_mod) rest table'

pub compute_object_offsets_and_ordering : PackIndex → Run (PackIndex × List Handle)
unfolding size_handle set_offsets
compute_object_offsets_and_ordering index = do
  table ← set_offsets 0 (sort pair_le (size_handle index.object_metadata)) index.object_metadata
  returns (
    record index { object_metadata = table },
    map (λ p. p.1) (sort pair_le (size_handle index.object_metadata)),
  )
