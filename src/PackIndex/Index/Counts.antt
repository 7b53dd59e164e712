-- ===== src/PackIndex/Index/Counts.antt =====
-- `for_each_snapshot_file_count` of packidx.rs against `resolve_snapshot`.
use elfshaker.Prelude.{
  ℕ, ◌+◌, ◌-◌, ◌%◌, ◌≡◌, refl, arith, Option, none, some, List, [], ◌∷◌, length, returns, list_eq,
  nat_eq, list_beq, ap, ◌∙◌, ◌==◌, Bool-cases, Run-cases, inl, inr, if◌then◌else◌,
}
use elfshaker.Algo.{u64_mod}
use elfshaker.HashSet.{IsDistinct}
use elfshaker.PackIndex.Types.{FileHandle, ChangeSet, handle_eq}
use elfshaker.PackIndex.Changes.{apply_changes}
use elfshaker.PackIndex.Changes.Apply.{apply_changes-size}
use elfshaker.PackIndex.Index.{
  Tag, PackIndex, resolve_from, resolve_snapshot, file_counts_from, file_counts,
}

-- the count that stands at the first occurrence of a tag
pub count_of : Tag → List (Tag × ℕ) → Option ℕ
count_of tag [] = none
count_of tag ((t, n) ∷ rest) = if t == tag then some n else count_of tag rest

count_of-file_counts_from :
    (set : List FileHandle) (count : ℕ) (tags : List Tag) (deltas : List (ChangeSet FileHandle))
    (needle : Tag) (s : List FileHandle)
    → IsDistinct set
    → count ≡ length set % u64_mod
    → resolve_from set tags deltas needle ≡ returns (some s)
    → count_of needle (file_counts_from count tags deltas) ≡ some (length s % u64_mod)
unfolding resolve_from file_counts_from count_of
count_of-file_counts_from set count [] deltas needle s d c p = cc
count_of-file_counts_from set count (t ∷ tags) [] needle s d c p = cc
count_of-file_counts_from set count (t ∷ tags) (delta ∷ deltas) needle s d c p =
    elim (Run-cases (apply_changes set delta)) [
      | inl stop ↦ cc (rw stop at p)
      | inr (r, go) ↦
          let (dr, size) = apply_changes-size set delta r d go in
          let same : (((count + length delta.added) % u64_mod)
                  + u64_mod
                  - length delta.removed % u64_mod)
                % u64_mod
              ≡ length r % u64_mod =
            omega (arith, size) in
          elim (Bool-cases (list_beq t needle)) [
            | inl here ↦
                let found : r ≡ s = cc (rw here at (rw go at p)) in
                rw here
                  (ap some same ∙ ap (λ (l : List FileHandle). some (length l % u64_mod)) found)
            | inr later ↦ rw later (
                count_of-file_counts_from r _ tags deltas needle s dr same
                  (rw later at (rw go at p)))
          ]
    ]

-- The file count that goes with a tag is the size of the set that the tag resolves to, as a 64-bit
-- number.
pub count_of-file_counts :
    (index : PackIndex) (tag : Tag) (s : List FileHandle)
    → resolve_snapshot index tag ≡ returns (some s)
    → count_of tag (file_counts index) ≡ some (length s % u64_mod)
unfolding resolve_snapshot file_counts
count_of-file_counts index tag s p =
    count_of-file_counts_from [] 0 index.snapshot_tags index.snapshot_deltas tag s tt refl p
