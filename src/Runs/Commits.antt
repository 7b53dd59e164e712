-- ===== src/Runs/Commits.antt =====
-- Runs of `commit_documents` of esi.rs.
use elfshaker.Prelude.{
  ℕ, ◌≡◌, refl, true, false, Option, none, some, List, [], ◌∷◌, ok, All, contains, ◌==◌, list_eq,
  nat_eq, eqb, if◌then◌else◌,
}
use elfshaker.HashSet.{insert}
use elfshaker.Esi.Commit.{
  FilePath, IoError, os, ExistingFile, DocumentWrite, World, Io, path_identity,
  validate_document_writes, see_targets, see_backups, backup_path, commit_documents, prepare_all,
  prepare, prepare_backup, pending_backup, follow, regular, link, read_existing, stage,
  stage_restore, publish_all, publish_item, publish_backup, publish_target, publish, rollback, undo,
  undo_backup, remove_if_exists, reverse_onto,
}
use elfshaker.Esi.Commit.Atomic.{commit_documents-unchanged}
use elfshaker.Esi.Commit.Links.{Preserves}
use elfshaker.Esi.Commit.Distinct.{Identifies, destinations}
use elfshaker.Esi.Commit.Publish.{Written, commit_documents-Written}

abbrev file_a : FilePath
file_a = b'a' ∷ []

abbrev file_c : FilePath
file_c = b'c' ∷ []

-- "a" is a link to "c"; no faults, but for the calls that `fails` names
abbrev io_with : (ℕ → Option IoError) → Io
io_with fails = record {
  place = λ p. p;
  canonicalize = λ p. ok (if p == file_a then file_c else p);
  current_dir = ok [];
  default_permissions = 0o644;
  read_fault = λ p. none;
  stage_fault = λ p. none;
  replace_fault = λ calls p. fails calls;
  remove_fault = λ calls p. none;
}

abbrev sound_io : Io
sound_io = io_with λ calls. none

-- the third replacement, after a backup and a target, runs out of space
abbrev full_disk : Io
full_disk = io_with λ calls. (if eqb calls 2 then some (os 28) else none)

abbrev old : ExistingFile
old = record { bytes = 1 ∷ []; permissions = 0o600 }

abbrev before : World
before = record {
  entries = λ p.
      (if p == file_a
        then some (link file_c)
        else if p == file_c
        then some (regular old)
        else none);
  calls = 0;
}

-- "a", which leads to a file, with a backup, and the new "b"
abbrev two_writes : List DocumentWrite
two_writes =
    record { path = file_a; contents = 2 ∷ []; backup = true }
    ∷ record { path = b'b' ∷ []; contents = 3 ∷ []; backup = false }
    ∷ []

fails : (commit_documents full_disk before two_writes).1 ≡ some (os 28)
unfolding commit_documents validate_document_writes see_targets see_backups path_identity insert
    backup_path prepare_all prepare prepare_backup pending_backup follow read_existing stage
    stage_restore publish_all publish_item publish_backup publish_target publish rollback undo
    undo_backup remove_if_exists reverse_onto
fails = refl

commit_documents-unchanged_example :
    Preserves before.entries (commit_documents full_disk before two_writes).0.entries
    × ((path : FilePath) (r : Option ExistingFile)
        → read_existing full_disk before path ≡ ok r
        → read_existing full_disk (commit_documents full_disk before two_writes).0 path ≡ ok r)
commit_documents-unchanged_example =
    commit_documents-unchanged full_disk before two_writes (os 28) fails refl

sound_io-Identifies : Identifies sound_io
unfolding path_identity
sound_io-Identifies = record { identity = λ p q i j a b same. cc }

succeeds : (commit_documents sound_io before two_writes).1 ≡ none
unfolding commit_documents validate_document_writes see_targets see_backups path_identity insert
    backup_path prepare_all prepare prepare_backup pending_backup follow read_existing stage
    stage_restore publish_all publish_item publish_backup publish_target publish
succeeds = refl

commit_documents-Written_example :
    All
      (Written sound_io before.entries (commit_documents sound_io before two_writes).0.entries)
      two_writes
    × ((x : FilePath)
        → contains (destinations sound_io before.entries two_writes) x ≡ false
        → (commit_documents sound_io before two_writes).0.entries x ≡ before.entries x)
commit_documents-Written_example =
    commit_documents-Written sound_io before two_writes sound_io-Identifies succeeds
