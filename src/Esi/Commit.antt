-- ===== src/Esi/Commit.antt =====
-- `commit_documents` of esi.rs: documents written to several files, all of them or none. A staged
-- file has a fresh name of its own, and stands here for what was written to it.
pub mod Prepare
pub mod Rollback
pub mod Fresh
pub mod Links
pub mod Atomic
pub mod Distinct
pub mod Publish
pub mod Files
unfoldable pub use Files.*
use elfshaker.Prelude.{
  ℕ, suc, Bool, true, false, Option, none, some, List, [], ◌∷◌, ◌++◌, eqb, if◌then◌else◌, Result,
  ok, err, and_then, Eq, ◌==◌, list_eq, nat_eq,
}
use elfshaker.HashSet
use elfshaker.PackPath.{slash, dot}

pub record DocumentWrite : Type 0 where
  pub path : FilePath
  pub contents : List ℕ
  pub backup : Bool

pub record PendingBackup : Type 0 where
  pub path : FilePath
  pub replacement : ExistingFile
  pub restore : Option ExistingFile
  pub existed : Bool
  pub published : Bool

pub record PendingWrite : Type 0 where
  pub path : FilePath
  pub replacement : ExistingFile
  pub restore : Option ExistingFile
  pub existed : Bool
  pub published : Bool
  pub backup : Option PendingBackup

abbrev pub is_some {ℓ} : {A : Type ℓ} → Option A → Bool
is_some none = false
is_some (some a) = true

-- ".bak" behind the path
unfoldable pub backup_path : FilePath → FilePath
backup_path path = path ++ dot ∷ b'b' ∷ b'a' ∷ b'k' ∷ []

abbrev pub is_absolute : FilePath → Bool
is_absolute [] = false
is_absolute (c ∷ cs) = eqb c slash

-- `map_or(Ok(()), Err)`, and the first of two errors
abbrev pub first_of_two : Option IoError → Option IoError → Option IoError
first_of_two (some e) later = some e
first_of_two none later = later

-- the permissions of a file that is there, or others
abbrev pub permissions_or : Option ExistingFile → ℕ → ℕ
permissions_or none mode = mode
permissions_or (some file) mode = file.permissions

-- the error of the commit, with what the rollback gave
abbrev pub failed : IoError → World × Option IoError → World × Option IoError
failed error (w, none) = (w, some error)
failed error (w, some e) = (w, some (rollback_failed error e))

-- the items in reverse, in front of others
unfoldable pub reverse_onto {ℓ} : {A : Type ℓ} → List A → List A → List A
reverse_onto [] ys = ys
reverse_onto (x ∷ xs) ys = reverse_onto xs (x ∷ ys)

module _ (io : Io) where
  abbrev pub or_absent : FilePath → Result IoError FilePath → Result IoError FilePath
  or_absent path (ok p) = ok p
  or_absent path (err not_found) =
      if is_absolute path then ok path else and_then io.current_dir λ dir. ok (dir ++ slash ∷ path)
  or_absent path (err e) = err e

  unfoldable pub path_identity : FilePath → Result IoError FilePath
  path_identity path = or_absent path (io.canonicalize path)

  -- the first loop of `validate_document_writes`, with the set that it leaves
  unfoldable pub see_targets : List FilePath → List DocumentWrite → Result IoError (List FilePath)
  unfolding path_identity HashSet.insert
  see_targets seen [] = ok seen
  see_targets seen (w ∷ ws) = and_then (path_identity w.path) λ id.
      (let rest = see_targets (HashSet.insert id seen).0 ws in
        if (HashSet.insert id seen).1 then rest else err (duplicate_target w.path))

  unfoldable pub see_backups : List FilePath → List DocumentWrite → Result IoError (List FilePath)
  unfolding path_identity HashSet.insert backup_path
  see_backups seen [] = ok seen
  see_backups seen (w ∷ ws) =
      let skipped = see_backups seen ws in
      let checked = and_then (path_identity (backup_path w.path)) λ id.
        (let rest = see_backups (HashSet.insert id seen).0 ws in
          if (HashSet.insert id seen).1 then rest else err (aliased_backup (backup_path w.path))) in
      if w.backup then checked else skipped

  unfoldable pub validate_document_writes : List DocumentWrite → Result IoError (List FilePath)
  unfolding see_targets see_backups
  validate_document_writes writes = and_then (see_targets [] writes) λ seen. see_backups seen writes

  -- `fs::read` and `fs::metadata` follow a link
  unfoldable pub read_existing : World → FilePath → Result IoError (Option ExistingFile)
  unfolding follow
  read_existing w path = elim (io.read_fault path) [
    | some e ↦ err e
    | none ↦ follow max_links w.entries (io.place path)
  ]

  -- `StagedFile::new`
  unfoldable pub stage : FilePath → List ℕ → ℕ → Result IoError ExistingFile
  stage target contents mode = elim (io.stage_fault target) [
    | some e ↦ err e
    | none ↦ ok (record { bytes = contents; permissions = mode })
  ]

  -- the staged copy of what stands there, if anything does
  unfoldable pub stage_restore :
      FilePath → Option ExistingFile → Result IoError (Option ExistingFile)
  unfolding stage
  stage_restore target none = ok none
  stage_restore target (some file) =
      and_then (stage target file.bytes file.permissions) λ staged. ok (some staged)

  -- the copy of the file that is there, and of what stands where it goes
  unfoldable pub pending_backup :
      FilePath → ExistingFile → Option ExistingFile → Result IoError (Option PendingBackup)
  unfolding stage stage_restore
  pending_backup path original previous =
      and_then (stage path original.bytes (permissions_or previous original.permissions))
        λ replacement. and_then (stage_restore path previous) λ restore. ok (
          some (record {
            path = path;
            replacement = replacement;
            restore = restore;
            existed = is_some previous;
            published = false;
          }))

  unfoldable pub prepare_backup :
      World → DocumentWrite → Option ExistingFile → Result IoError (Option PendingBackup)
  unfolding backup_path read_existing pending_backup
  prepare_backup w write none = ok none
  prepare_backup w write (some original) =
      let path = backup_path write.path in
      let backup = and_then (read_existing w path) (pending_backup path original) in
      if write.backup then backup else ok none

  unfoldable pub prepare : World → DocumentWrite → Result IoError PendingWrite
  unfolding read_existing stage stage_restore prepare_backup
  prepare w write = and_then (read_existing w write.path) λ original.
      and_then (stage write.path write.contents (permissions_or original io.default_permissions))
        λ replacement. and_then (stage_restore write.path original) λ restore.
          and_then (prepare_backup w write original) λ backup. ok (record {
            path = write.path;
            replacement = replacement;
            restore = restore;
            existed = is_some original;
            published = false;
            backup = backup;
          })

  unfoldable pub prepare_all : World → List DocumentWrite → Result IoError (List PendingWrite)
  unfolding prepare
  prepare_all w [] = ok []
  prepare_all w (write ∷ writes) =
      and_then (prepare w write) λ item. and_then (prepare_all w writes) λ items. ok (item ∷ items)

  -- `StagedFile::publish`, where `replace` is `replace_file`; `rename` replaces a link itself
  unfoldable pub publish : World → ExistingFile → FilePath → World × Option IoError
  publish w staged target = elim (io.replace_fault w.calls target) [
    | some e ↦ (record w { calls = suc w.calls }, some e)
    | none ↦ (
      record {
        entries = update w.entries (io.place target) (some (regular staged));
        calls = suc w.calls;
      },
      none,
    )
  ]

  unfoldable pub publish_target : World → PendingWrite → World × PendingWrite × Option IoError
  unfolding publish
  publish_target w item = elim (publish w item.replacement item.path).1 [
    | some e ↦ ((publish w item.replacement item.path).0, item, some e)
    | none ↦ ((publish w item.replacement item.path).0, record item { published = true }, none)
  ]

  -- the closure of the publishing loop
  unfoldable pub publish_backup :
      World → PendingWrite → Option PendingBackup → World × PendingWrite × Option IoError
  unfolding publish publish_target
  publish_backup w item none = publish_target w item
  publish_backup w item (some b) = elim (publish w b.replacement b.path).1 [
    | some e ↦ ((publish w b.replacement b.path).0, item, some e)
    | none ↦
        publish_target (publish w b.replacement b.path).0
          (record item { backup = some (record b { published = true }) })
  ]

  unfoldable pub publish_item : World → PendingWrite → World × PendingWrite × Option IoError
  unfolding publish_backup
  publish_item w item = publish_backup w item item.backup

  -- `remove_file` removes a link itself
  unfoldable pub remove_if_exists : World → FilePath → World × Option IoError
  remove_if_exists w path = elim (w.entries (io.place path)) [
    | none ↦ (record w { calls = suc w.calls }, none)
    | some entry ↦ elim (io.remove_fault w.calls path) [
      | some e ↦ (record w { calls = suc w.calls }, some e)
      | none ↦
          (record { entries = update w.entries (io.place path) none; calls = suc w.calls }, none)
    ]
  ]

  -- one `if published` of `rollback`
  unfoldable pub undo :
      World → Bool → FilePath → Option ExistingFile → Bool → World × Option IoError
  unfolding publish remove_if_exists
  undo w false path restore existed = (w, none)
  undo w true path (some file) existed = publish w file path
  undo w true path none true = (w, none)
  undo w true path none false = remove_if_exists w path

  unfoldable pub undo_backup : World → Option PendingBackup → World × Option IoError
  unfolding undo
  undo_backup w none = (w, none)
  undo_backup w (some b) = undo w b.published b.path b.restore b.existed

  -- `rollback` over the items in the order that it visits them, the last first
  unfoldable pub rollback : World → Option IoError → List PendingWrite → World × Option IoError
  unfolding undo undo_backup
  rollback w first [] = (w, first)
  rollback w first (item ∷ items) =
      let (w', e) = undo w item.published item.path item.restore item.existed in
      let (w'', e') = undo_backup w' item.backup in
      rollback w'' (first_of_two (first_of_two first e) e') items

  -- The publishing loop: `before` are the items behind it, the last of them first. The items that
  -- are still to come stand in front of those when `rollback` goes through `pending` in reverse.
  unfoldable pub publish_all :
      World → List PendingWrite → List PendingWrite → World × Option IoError
  unfolding publish_item rollback reverse_onto
  publish_all w before [] = (w, none)
  publish_all w before (item ∷ items) = elim (publish_item w item).2 [
    | none ↦ publish_all (publish_item w item).0 ((publish_item w item).1 ∷ before) items
    | some error ↦ failed error (
        rollback (publish_item w item).0 none
          (reverse_onto items ((publish_item w item).1 ∷ before)))
  ]

  unfoldable pub commit_documents : World → List DocumentWrite → World × Option IoError
  unfolding validate_document_writes prepare_all publish_all
  commit_documents w writes = elim (validate_document_writes writes) [
    | err e ↦ (w, some e)
    | ok seen ↦ elim (prepare_all w writes) [
      | err e ↦ (w, some e)
      | ok items ↦ publish_all w [] items
    ]
  ]
