-- ===== src/PackIndex/Index/Push.antt =====
-- `push_snapshot` of packidx.rs against `resolve_snapshot` and `handle_to_entry`.
use elfshaker.Prelude.{
  ℕ, ◌≡◌, true, false, some, List, length, returns, ok, err, contains, list_eq, nat_eq, sym, ◌∙◌,
  get_elem?,
}
use elfshaker.HashSet
use elfshaker.HashSet.{IsDistinct}
use elfshaker.HashSet.Laws.{IsDistinct-collect, contains-collect}
use elfshaker.PackIndex.Types.{FileHandle, FileEntry, handle_eq}
use elfshaker.PackIndex.Index.{
  Tag, snapshot_already_exists, PackIndex, push_snapshot, push_files, resolve_snapshot,
  entries_to_handles,
}
use elfshaker.PackIndex.Index.Tables.{IsConsistent, HasRoom}
use elfshaker.PackIndex.Index.Entries.{
  Denotes, entries_to_handles-Interns, DenoteAll-contains, DenoteAll-get_elem?,
}
use elfshaker.PackIndex.Index.History.{
  IsReplayable, IsReplayable-Extends, resolve_snapshot-Extends, push_files-Pushes,
}

-- The handles stand for the entries of the list: each for one of them, and each of them has one.
pub record Represents (index : PackIndex) (handles : List FileHandle) (input : List FileEntry)
    : Type 0 where
  pub sound :
      (h : FileHandle)
      → contains handles h ≡ true
      → (i : ℕ) × (x : FileEntry) × (get_elem? input i ≡ some x) × Denotes index h x
  pub complete :
      (i : ℕ) (x : FileEntry)
      → get_elem? input i ≡ some x
      → (h : FileHandle) × (contains handles h ≡ true) × Denotes index h x

-- what a successful `push_snapshot index tag input` gives
pub record PushesSnapshot (index : PackIndex) (tag : Tag) (input : List FileEntry)
    (index' : PackIndex) : Type 0 where
  pub consistent : IsConsistent index'
  pub replayable : IsReplayable index'
  pub resolved :
      (s : List FileHandle) × (resolve_snapshot index' tag ≡ returns (some s))
      × Represents index' s input
      × IsDistinct s
  pub kept :
      (old : Tag)
      → contains index.snapshot_tags old ≡ true
      → resolve_snapshot index' old ≡ resolve_snapshot index old

push_snapshot_fresh :
    (index : PackIndex) (tag : Tag) (input : List FileEntry)
    → contains index.snapshot_tags tag ≡ false
    → push_snapshot index tag input
      ≡ push_files
          (entries_to_handles index input).0
          tag
          (HashSet.collect (entries_to_handles index input).1)
unfolding push_snapshot
push_snapshot_fresh index tag input fresh = rw fresh

-- A tag that the index has is refused.
pub push_snapshot_duplicate :
    (index : PackIndex) (tag : Tag) (input : List FileEntry)
    → contains index.snapshot_tags tag ≡ true
    → push_snapshot index tag input ≡ returns (err (snapshot_already_exists tag))
unfolding push_snapshot
push_snapshot_duplicate index tag input there = rw there

-- In an index with consistent tables, deltas that replay to the current set, and room in the pools,
-- pushing entries under a fresh tag succeeds with no assertion failing, keeps the index consistent,
-- and then the tag resolves to handles, without repetitions, that stand for exactly the pushed entries, while every tag
-- from before resolves as it did.
pub push_snapshot-resolve_snapshot :
    (index : PackIndex) (tag : Tag) (input : List FileEntry)
    → IsConsistent index
    → IsReplayable index
    → HasRoom index (length input)
    → contains index.snapshot_tags tag ≡ false
    → (index' : PackIndex) × (push_snapshot index tag input ≡ returns (ok index'))
      × PushesSnapshot index tag input index'
push_snapshot-resolve_snapshot index tag input c v room fresh =
    let mid = (entries_to_handles index input).0 in
    let handles = (entries_to_handles index input).1 in
    let files = HashSet.collect handles in
    let i = entries_to_handles-Interns index input c room in
    let (index', eq, p) =
      push_files-Pushes mid tag files (IsReplayable-Extends i.extends v) (rw i.extends.tags fresh)
        (IsDistinct-collect handles) in
    let (s, found, members, d) = p.resolved in
    (
      index',
      push_snapshot_fresh index tag input fresh ∙ eq,
      record {
        consistent = p.tables i.consistent;
        replayable = p.replayable;
        resolved = (
          s,
          found,
          record {
            sound = λ h there.
                let (k, x, at, d) =
                  DenoteAll-contains mid handles input h i.denote
                    (sym (members h ∙ contains-collect h handles) ∙ there) in
                (k, x, at, p.denotes h x d);
            complete = λ k x at.
                let (h, there, d) = DenoteAll-get_elem? mid handles input k x i.denote at in
                (h, members h ∙ contains-collect h handles ∙ there, p.denotes h x d);
          },
          d,
        );
        kept = λ old there.
            p.kept old (rw i.extends.tags there) ∙ resolve_snapshot-Extends old i.extends;
      },
    )
