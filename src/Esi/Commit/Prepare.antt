-- ===== src/Esi/Commit/Prepare.antt =====
-- The preparation of a write in `commit_documents` of esi.rs: what its steps gave.
use elfshaker.Prelude.{
  ℕ, List, ◌≡◌, arith, refl, err, false, Option, none, some, ok, Option-cases, Result-cases, inl,
  inr,
}
use elfshaker.Esi.Commit.{
  FilePath, Entry, follow, max_links, as_entry, ExistingFile, DocumentWrite, PendingBackup,
  PendingWrite, World, Io, is_some, permissions_or, read_existing, stage, stage_restore,
  prepare_backup, prepare,
}

-- what reading at a place gives; nothing where it fails
unfoldable pub content : (FilePath → Option Entry) → FilePath → Option ExistingFile
content entries x = elim (follow max_links entries x) [ ok file ↦ file | err e ↦ none ]

-- what stands at a place where what reading it gave is put back
unfoldable pub restored : (FilePath → Option Entry) → FilePath → Option Entry
restored entries x = elim (follow max_links entries x) [
  | ok file ↦ as_entry file
  | err e ↦ entries x
]

module _ (io : Io) where
  pub read_existing_lem :
      (w : World) (path : FilePath) (file : Option ExistingFile)
      → read_existing io w path ≡ ok file
      → (file ≡ content w.entries (io.place path))
        × (as_entry file ≡ restored w.entries (io.place path))
  unfolding read_existing content restored
  read_existing_lem w path file h = elim (Option-cases (io.read_fault path)) [
    | inr (e, stop) ↦ cc (rw (stop, read_existing) at h)
    | inl clear ↦
        let h' : follow max_links w.entries (io.place path) ≡ ok file =
          rw (clear, read_existing) at h in
        (rw h' refl, rw h' refl)
  ]

  pub stage_lem :
      (path : FilePath) (contents : List ℕ) (mode : ℕ) (file : ExistingFile)
      → stage io path contents mode ≡ ok file
      → file ≡ record { bytes = contents; permissions = mode }
  unfolding stage
  stage_lem path contents mode file h = ground arith

  pub stage_restore_lem :
      (path : FilePath) (file restore : Option ExistingFile)
      → stage_restore io path file ≡ ok restore
      → restore ≡ file
  unfolding stage_restore stage
  stage_restore_lem path none restore h = cc
  stage_restore_lem path (some file) restore h = ground arith

  -- The steps of a preparation that succeeds.
  pub record Prepares (w : World) (write : DocumentWrite) (item : PendingWrite) : Type 0 where
    pub backup : Option PendingBackup
    pub is_item :
        record {
          path = write.path;
          replacement = record {
            bytes = write.contents;
            permissions =
                permissions_or (content w.entries (io.place write.path)) io.default_permissions;
          };
          restore = content w.entries (io.place write.path);
          existed = is_some (content w.entries (io.place write.path));
          published = false;
          backup = backup;
        }
        ≡ item
    pub made : prepare_backup io w write (content w.entries (io.place write.path)) ≡ ok backup
    pub kept :
        as_entry (content w.entries (io.place write.path))
        ≡ restored w.entries (io.place write.path)

  pub prepare-Prepares :
      (w : World) (write : DocumentWrite) (item : PendingWrite)
      → prepare io w write ≡ ok item
      → Prepares w write item
  unfolding prepare
  prepare-Prepares w write item h = elim (Result-cases (read_existing io w write.path)) [
    | inl (e, p) ↦ cc (rw (p, prepare) at h)
    | inr (original, p) ↦
        let mode = permissions_or original io.default_permissions in
        elim (Result-cases (stage io write.path write.contents mode)) [
          | inl (e, q) ↦ cc (rw (p, q, prepare) at h)
          | inr (replacement, q) ↦ elim (Result-cases (stage_restore io write.path original)) [
            | inl (e, r) ↦ cc (rw (p, q, r, prepare) at h)
            | inr (restore, r) ↦ elim (Result-cases (prepare_backup io w write original)) [
              | inl (e, t) ↦ cc (rw (p, q, r, t, prepare) at h)
              | inr (backup, t) ↦
                  let (there, kept) = read_existing_lem w write.path original p in
                  let new = stage_lem write.path write.contents mode replacement q in
                  let copy = stage_restore_lem write.path original restore r in
                  let whole : record {
                    path = write.path;
                    replacement = replacement;
                    restore = restore;
                    existed = is_some original;
                    published = false;
                    backup = backup;
                  }
                      ≡ item =
                    cc (rw (p, q, r, t, prepare) at h) in
                  record {
                    backup = backup;
                    is_item = rw (← there) (rw (← new) (rw (copy) at whole));
                    made = rw (← there) t;
                    kept = rw (← there) kept;
                  }
            ]
          ]
        ]
  ]
