-- ===== src/Esi/Commit/Atomic.antt =====
-- `commit_documents` of esi.rs: a failed commit changes nothing.
use elfshaker.Prelude.{
  ◌≡◌, ◌⊎◌, ok, sym, if◌then◌else◌, refl, arith, ◌∙◌, Bool, true, false, ◌||◌, Option, none, some,
  List, [], ◌∷◌, All, Option-cases, Result-cases, inl, inr, list_eq, nat_eq, ◌==◌,
}
use elfshaker.Esi.Commit.{
  FilePath, Entry, read_existing, IoError, rollback_failed, ExistingFile, DocumentWrite,
  PendingBackup, PendingWrite, World, Io, publish, publish_target, publish_backup, publish_item,
  publish_all, rollback, reverse_onto, failed, prepare_all, commit_documents,
  validate_document_writes,
}
use elfshaker.Esi.Commit.Prepare.{restored}
use elfshaker.Esi.Commit.Links.{Flattened, Preserves, restored-Flattened, read_existing-Preserves}
use elfshaker.Esi.Commit.Rollback.{
  backup_touches, item_touches, touches, BackupRestores, Restores, rollback_lem,
}
use elfshaker.Esi.Commit.Fresh.{prepare_all_lem, FreshBackup, IsFresh}

abbrev pub is_rollback_failure : IoError → Bool
is_rollback_failure (rollback_failed a b) = true
is_rollback_failure _ = false

module _ (io : Io) (entries : FilePath → Option Entry) where
  -- the places that no item has touched are as they were
  abbrev Kept : World → List PendingWrite → Type 0
  Kept w items = (x : FilePath) → touches io items x ≡ false → w.entries x ≡ entries x

  -- what publishing an item leaves
  record Publishes (w : World) (item : PendingWrite) (w' : World) (item' : PendingWrite)
      : Type 0 where
    restores : Restores io (restored entries) item'
    keeps : (x : FilePath) → item_touches io item' x ≡ false → w'.entries x ≡ w.entries x

  publish_keeps :
      (w : World) (file : ExistingFile) (path : FilePath)
      → (x : FilePath) → (io.place path == x) ≡ false
      → (publish io w file path).0.entries x ≡ w.entries x
  unfolding publish
  publish_keeps w file path x h = ground (arith, h)

  publish_failed :
      (w : World) (file : ExistingFile) (path : FilePath) (e : IoError)
      → (publish io w file path).1 ≡ some e
      → (publish io w file path).0.entries ≡ w.entries
  unfolding publish
  publish_failed w file path e h = ground arith

  publish_target-Publishes :
      (w : World) (item : PendingWrite)
      → Restores io (restored entries) item
      → item.published ≡ false
      → let done = publish_target io w item in Publishes w item done.0 done.1
  unfolding publish_target
  publish_target-Publishes w item r fresh =
      elim (Option-cases (publish io w item.replacement item.path).1) [
        | inl went ↦
            rw (went, publish_target)
              (record {
                restores = record { restore = r.restore; existed = r.existed; backup = r.backup };
                keeps = λ x h. publish_keeps w item.replacement item.path x (ground (arith, h));
              })
        | inr (e, stopped) ↦
            rw (stopped, publish_target)
              (record {
                restores = r;
                keeps = λ x h.
                    let same = publish_failed w item.replacement item.path e stopped in
                    rw same refl;
              })
      ]

  publish_target-backup :
      (w : World) (item : PendingWrite) → (publish_target io w item).1.backup ≡ item.backup
  unfolding publish_target
  publish_target-backup w item = ground arith

  backup_untouched :
      (x : FilePath) (item : PendingWrite) (b : PendingBackup)
      → item.backup ≡ some (record b { published = true })
      → item_touches io item x ≡ false
      → (io.place b.path == x) ≡ false
  backup_untouched x item b same h = ground arith

  publish_backup-Publishes :
      (w : World) (item : PendingWrite) (backup : Option PendingBackup)
      → Restores io (restored entries) item
      → item.backup ≡ backup
      → item.published ≡ false
      → FreshBackup backup
      → let done = publish_backup io w item backup in Publishes w item done.0 done.1
  unfolding publish_backup
  publish_backup-Publishes w item none r same fresh fb = publish_target-Publishes w item r fresh
  publish_backup-Publishes w item (some b) r same fresh fb =
      let of_backup : BackupRestores io (restored entries) (some b) = rw same at r.backup in
      elim (Option-cases (publish io w b.replacement b.path).1) [
        | inl went ↦
            let item' : PendingWrite = record item {
              backup = some (record b { published = true });
            } in
            let r' : Restores io (restored entries) item' = record {
              restore = r.restore;
              existed = r.existed;
              backup = of_backup;
            } in
            let w' = (publish io w b.replacement b.path).0 in
            let then_target = publish_target-Publishes w' item' r' fresh in
            let touched : (publish_target io w' item').1.backup ≡ item'.backup =
              publish_target-backup w' item' in
            rw (went, publish_backup)
              (record {
                restores = then_target.restores;
                keeps = λ x h.
                    then_target.keeps x h
                    ∙ publish_keeps w b.replacement b.path x
                        (backup_untouched x (publish_target io w' item').1 b touched h);
              })
        | inr (e, stopped) ↦
            rw (stopped, publish_backup)
              (record {
                restores = r;
                keeps = λ x h.
                    let same_files = publish_failed w b.replacement b.path e stopped in
                    rw same_files refl;
              })
      ]

  publish_item-Publishes :
      (w : World) (item : PendingWrite)
      → Restores io (restored entries) item
      → IsFresh item
      → let done = publish_item io w item in Publishes w item done.0 done.1
  unfolding publish_item
  publish_item-Publishes w item r (fresh, fb) =
      publish_backup-Publishes w item item.backup r refl fresh fb

  touches-reverse_onto :
      (items done : List PendingWrite) (x : FilePath)
      → touches io (reverse_onto items done) x ≡ (touches io items x || touches io done x)
  unfolding reverse_onto
  touches-reverse_onto [] done x = refl
  touches-reverse_onto (item ∷ items) done x =
      ground (arith, touches-reverse_onto items (item ∷ done) x)

  All-reverse_onto {κ} :
      (P : PendingWrite → Type κ) (items done : List PendingWrite)
      → All P items
      → All P done
      → All P (reverse_onto items done)
  unfolding reverse_onto
  All-reverse_onto P [] done h k = k
  All-reverse_onto P (item ∷ items) done (p, h) k = All-reverse_onto P items (item ∷ done) h (p, k)

  fresh_untouched :
      (items : List PendingWrite) (x : FilePath) → All IsFresh items → touches io items x ≡ false
  fresh_untouched [] x h = refl
  fresh_untouched (item ∷ items) x ((f, fb), h) =
      ground (arith, f, fresh_untouched items x h, of_backup item.backup fb)
    where
      of_backup :
          (backup : Option PendingBackup) → FreshBackup backup → backup_touches io backup x ≡ false
      of_backup none h = refl
      of_backup (some b) h = rw h refl

  failed-cases :
      (error e : IoError) (r : World × Option IoError)
      → (failed error r).1 ≡ some e
      → is_rollback_failure e ≡ false
      → (r.1 ≡ none) × ((failed error r).0 ≡ r.0)
  failed-cases error e (w, none) h k = (refl, refl)
  failed-cases error e (w, some e') h k = ground arith

  -- after a rollback, at a place that was touched or not
  put_back :
      (w w' : World) (done : List PendingWrite) (touched : Bool)
      → Kept w done
      → (x : FilePath) → w'.entries x ≡ (if touched then restored entries x else w.entries x)
      → touched ≡ touches io done x
      → (w'.entries x ≡ entries x) ⊎ Flattened entries w'.entries x
  put_back w w' done true kept x h t = restored-Flattened entries w'.entries x h
  put_back w w' done false kept x h t = inl (h ∙ kept x (sym t))

  publish_all-Kept :
      (w : World) (done items : List PendingWrite) (e : IoError)
      → All (Restores io (restored entries)) done
      → All (Restores io (restored entries)) items
      → All IsFresh items
      → Kept w done
      → (publish_all io w done items).1 ≡ some e
      → is_rollback_failure e ≡ false
      → Preserves entries (publish_all io w done items).0.entries
  unfolding publish_all
  publish_all-Kept w done [] e rd ri fresh kept h k x = cc
  publish_all-Kept w done (item ∷ items) e rd (r, ri) (f, fresh) kept h k x =
      let w' = (publish_item io w item).0 in
      let item' = (publish_item io w item).1 in
      let p = publish_item-Publishes w item r f in
      let kept' : Kept w' (item' ∷ done) =
        λ y untouched. p.keeps y (ground (arith, untouched)) ∙ kept y (ground (arith, untouched)) in
      elim (Option-cases (publish_item io w item).2) [
        | inl went ↦
            rw (went, publish_all)
              (publish_all-Kept w' (item' ∷ done) items e (p.restores, rd) ri fresh kept'
                (rw (went, publish_all) at h) k x)
        | inr (error, stopped) ↦
            let all = reverse_onto items (item' ∷ done) in
            let h' : (failed error (rollback io w' none all)).1 ≡ some e =
              rw (stopped, publish_all) at h in
            let (clean, same) = failed-cases error e (rollback io w' none all) h' k in
            let rs =
              All-reverse_onto (Restores io (restored entries)) items (item' ∷ done) ri
                (p.restores, rd) in
            rw (stopped, publish_all)
              (rw same (
                put_back w' (rollback io w' none all).0 (item' ∷ done) (touches io all x) kept' x
                  (rollback_lem io (restored entries) w' all rs clean x)
                  (ground (
                    arith,
                    touches-reverse_onto items (item' ∷ done) x,
                    fresh_untouched items x fresh,
                  ))))
      ]

commit_documents-Preserves :
    (io : Io) (w : World) (writes : List DocumentWrite) (e : IoError)
    → (commit_documents io w writes).1 ≡ some e
    → is_rollback_failure e ≡ false
    → Preserves w.entries (commit_documents io w writes).0.entries
unfolding commit_documents
commit_documents-Preserves io w writes e h k x =
    elim (Result-cases (validate_document_writes io writes)) [
      | inl (bad, p) ↦ inl (rw (p, commit_documents) refl)
      | inr (seen, p) ↦ elim (Result-cases (prepare_all io w writes)) [
        | inl (bad, q) ↦ inl (rw (p, q, commit_documents) refl)
        | inr (items, q) ↦
            let (rs, fs) = prepare_all_lem io w writes items q in
            rw (p, q, commit_documents)
              (publish_all-Kept io w.entries w [] items e tt rs fs (λ y t. refl)
                (rw (p, q, commit_documents) at h) k x)
      ]
    ]

-- A commit that fails, and whose rollback does not fail itself, leaves every file as it was,
-- wherever the fault came: in the validation, while files were read and staged, or at any of the
-- replacements, backups included. What stands at a place is what stood there, but that in the place
-- of a symbolic link there may be the file that it led to, or nothing where it led to nothing; and
-- each path that could be read reads as before.
pub commit_documents-unchanged :
    (io : Io) (w : World) (writes : List DocumentWrite) (e : IoError)
    → (commit_documents io w writes).1 ≡ some e
    → is_rollback_failure e ≡ false
    → Preserves w.entries (commit_documents io w writes).0.entries
      × ((path : FilePath) (r : Option ExistingFile)
          → read_existing io w path ≡ ok r
          → read_existing io (commit_documents io w writes).0 path ≡ ok r)
commit_documents-unchanged io w writes e h k =
    let kept = commit_documents-Preserves io w writes e h k in
    (kept, λ path r. read_existing-Preserves io w (commit_documents io w writes).0 path r kept)
