-- ===== src/PackIndex/Index/History.antt =====
-- `push_snapshot` and `resolve_snapshot` of packidx.rs: what is pushed is what is resolved.
use elfshaker.Prelude.{
  ◌≡◌, refl, arith, true, false, some, List, [], ◌∷◌, ◌++◌, length, length-append, Run, returns,
  ◌>>=◌, ok, list_eq, nat_eq, list_beq, Run-cases, ==_refl, contains, Bool-cases, inl, inr,
}
use elfshaker.HashSet.{IsDistinct}
use elfshaker.PackIndex.Types.{FileHandle, FileEntry, ChangeSet, handle_eq}
use elfshaker.PackIndex.Changes.{apply_changes}
use elfshaker.PackIndex.Changes.Diff.{
  SameMembers, changes_between, get_changes_lem, apply_changes-changes_between,
}
use elfshaker.PackIndex.Index.Tables.{IsConsistent, Extends}
use elfshaker.PackIndex.Index.Entries.{Denotes}
use elfshaker.PackIndex.Index.{
  Tag, PackIndex, new, push_delta, push_files, resolve_from, resolve_snapshot,
}

-- the file set that the deltas lead to from a first one
pub replay : List FileHandle → List (ChangeSet FileHandle) → Run (List FileHandle)
replay set [] = returns set
replay set (delta ∷ deltas) = do set' ← apply_changes set delta; replay set' deltas

replay-append :
    (set : List FileHandle) (deltas : List (ChangeSet FileHandle)) (delta : ChangeSet FileHandle)
    (r r' : List FileHandle)
    → replay set deltas ≡ returns r
    → apply_changes r delta ≡ returns r'
    → replay set (deltas ++ delta ∷ []) ≡ returns r'
unfolding replay
replay-append set [] delta r r' p q = let same : set ≡ r = cc in rw same (rw q)
replay-append set (d ∷ deltas) delta r r' p q = elim (Run-cases (apply_changes set d)) [
  | inl stop ↦ cc (rw stop at p)
  | inr (s, go) ↦ rw go (replay-append s deltas delta r r' (rw go at p) q)
]

resolve_from-append :
    (set : List FileHandle) (tags : List Tag) (deltas : List (ChangeSet FileHandle)) (needle : Tag)
    (delta : ChangeSet FileHandle) (r r' : List FileHandle)
    → length tags ≡ length deltas
    → contains tags needle ≡ false
    → replay set deltas ≡ returns r
    → apply_changes r delta ≡ returns r'
    → resolve_from set (tags ++ needle ∷ []) (deltas ++ delta ∷ []) needle ≡ returns (some r')
unfolding replay resolve_from
resolve_from-append set [] [] needle delta r r' al fresh p q =
    let same : set ≡ r = cc in rw (same, q) (rw ==_refl refl)
resolve_from-append set [] (d ∷ deltas) needle delta r r' al fresh p q = absurd (omega arith)
resolve_from-append set (t ∷ tags) [] needle delta r r' al fresh p q = absurd (omega arith)
resolve_from-append set (t ∷ tags) (d ∷ deltas) needle delta r r' al fresh p q =
    elim (Run-cases (apply_changes set d)) [
      | inl stop ↦ cc (rw stop at p)
      | inr (s, go) ↦
          let other : list_beq t needle ≡ false = ground arith in
          rw (go, other)
            (resolve_from-append s tags deltas needle delta r r' (omega arith) (ground arith)
              (rw go at p) q)
    ]

resolve_from-append_old :
    (set : List FileHandle) (tags : List Tag) (deltas : List (ChangeSet FileHandle))
    (needle tag : Tag) (delta : ChangeSet FileHandle)
    → length tags ≡ length deltas
    → contains tags needle ≡ true
    → resolve_from set (tags ++ tag ∷ []) (deltas ++ delta ∷ []) needle
      ≡ resolve_from set tags deltas needle
unfolding resolve_from
resolve_from-append_old set [] deltas needle tag delta al h = cc
resolve_from-append_old set (t ∷ tags) [] needle tag delta al h = absurd (omega arith)
resolve_from-append_old set (t ∷ tags) (d ∷ deltas) needle tag delta al h =
    elim (Run-cases (apply_changes set d)) [
      | inl stop ↦ rw stop
      | inr (s, go) ↦ elim (Bool-cases (list_beq t needle)) [
        | inl here ↦ rw (go, here)
        | inr later ↦
            rw (go, later)
              (resolve_from-append_old s tags deltas needle tag delta (omega arith) (ground arith))
      ]
    ]

-- The deltas lead from the empty set to the current one.
pub record IsReplayable (index : PackIndex) : Type 0 where
  pub current_distinct : IsDistinct index.current
  pub aligned : length index.snapshot_tags ≡ length index.snapshot_deltas
  pub set : List FileHandle
  pub replayed : replay [] index.snapshot_deltas ≡ returns set
  pub same : SameMembers set index.current
  pub distinct : IsDistinct set

pub new-IsReplayable : IsReplayable new
unfolding replay
new-IsReplayable = record {
  current_distinct = tt;
  aligned = refl;
  set = [];
  replayed = refl;
  same = λ x. refl;
  distinct = tt;
}

-- interning changes no snapshot
pub IsReplayable-Extends :
    {before after : PackIndex} → Extends before after → IsReplayable before → IsReplayable after
IsReplayable-Extends f v = record {
  current_distinct = rw f.current v.current_distinct;
  aligned = rw (f.tags, f.deltas) v.aligned;
  set = v.set;
  replayed = rw f.deltas v.replayed;
  same = rw f.current v.same;
  distinct = v.distinct;
}

pub resolve_snapshot-Extends :
    {before after : PackIndex} (tag : Tag)
    → Extends before after
    → resolve_snapshot after tag ≡ resolve_snapshot before tag
unfolding resolve_snapshot
resolve_snapshot-Extends tag f = rw (f.tags, f.deltas)

-- what pushing a distinct file set under a fresh tag gives
pub record Pushes (index : PackIndex) (tag : Tag) (files : List FileHandle) (index' : PackIndex)
    : Type 0 where
  pub replayable : IsReplayable index'
  pub resolved :
      (s : List FileHandle) × (resolve_snapshot index' tag ≡ returns (some s))
      × SameMembers s files
      × IsDistinct s
  pub kept :
      (old : Tag)
      → contains index.snapshot_tags old ≡ true
      → resolve_snapshot index' old ≡ resolve_snapshot index old
  pub tables : IsConsistent index → IsConsistent index'
  pub denotes : (h : FileHandle) (x : FileEntry) → Denotes index h x → Denotes index' h x

pub push_files-Pushes :
    (index : PackIndex) (tag : Tag) (files : List FileHandle)
    → IsReplayable index
    → contains index.snapshot_tags tag ≡ false
    → IsDistinct files
    → (index' : PackIndex) × (push_files index tag files ≡ returns (ok index'))
      × Pushes index tag files index'
unfolding push_files resolve_snapshot push_delta
push_files-Pushes index tag files v fresh d =
    let delta = changes_between index.current files in
    let (left, eq, _) = get_changes_lem index.current files v.current_distinct d in
    let (r', go, a, members) =
      apply_changes-changes_between index.current files v.set v.current_distinct d v.same in
    (
      push_delta index tag files delta,
      rw eq,
      record {
        replayable = record {
          current_distinct = d;
          aligned = omega (
            arith,
            v.aligned,
            length-append index.snapshot_tags (tag ∷ []),
            length-append index.snapshot_deltas (delta ∷ []),
          );
          set = r';
          replayed = replay-append [] index.snapshot_deltas delta v.set r' v.replayed go;
          same = members;
          distinct = a.distinct v.distinct;
        };
        resolved = (
          r',
          resolve_from-append [] index.snapshot_tags index.snapshot_deltas tag delta v.set r'
              v.aligned fresh v.replayed go,
          members,
          a.distinct v.distinct,
        );
        kept = λ old h.
            resolve_from-append_old [] index.snapshot_tags index.snapshot_deltas old tag delta
              v.aligned h;
        tables = λ c. record {
          paths = c.paths;
          objects = c.objects;
          dense = c.dense;
          covered = c.covered;
        };
        denotes = λ h x q. record { path = q.path; object = q.object; metadata = q.metadata };
      },
    )
