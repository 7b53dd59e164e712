-- ===== src/Esi/Commit/Publish.antt =====
-- `commit_documents` of esi.rs: what a commit that succeeds has written.
use elfshaker.Prelude.{
  ◌≡◌, refl, arith, ap, sym, ◌∙◌, Bool, true, false, Option, none, some, List, [], ◌∷◌, ◌++◌, All,
  Bool-cases, Option-cases, Result-cases, ok, inl, inr, list_beq_iff, list_eq, nat_eq, contains,
}
use elfshaker.HashSet.{IsDistinct}
use elfshaker.HashSet.Laws.{contains-append}
use elfshaker.Esi.Commit.{
  FilePath, Entry, regular, IoError, ExistingFile, DocumentWrite, PendingBackup, PendingWrite,
  World, Io, update, permissions_or, backup_path, read_existing, stage, stage_restore,
  prepare_backup, pending_backup, prepare, prepare_all, publish, publish_target, publish_backup,
  publish_item, publish_all, failed, validate_document_writes, commit_documents, rollback,
  reverse_onto,
}
use elfshaker.Esi.Commit.Prepare.{content, read_existing_lem, prepare-Prepares}
use elfshaker.Esi.Commit.Distinct.{
  Identifies, backup_place, backup_of, destinations, validate_document_writes-IsDistinct,
}

failed-ne-none : (e : IoError) (r : World × Option IoError) → ¬ ((failed e r).1 ≡ none)
failed-ne-none e (w, none) h = cc
failed-ne-none e (w, some e') h = cc

module _ (io : Io) (entries : FilePath → Option Entry) where
  -- the new contents, with the permissions of the file that was there
  abbrev pub new_file : DocumentWrite → ExistingFile
  new_file write = record {
    bytes = write.contents;
    permissions = permissions_or (content entries (io.place write.path)) io.default_permissions;
  }

  -- the old contents, with the permissions of an older backup if there is one
  abbrev pub backup_file : FilePath → ExistingFile → ExistingFile
  backup_file path original = record {
    bytes = original.bytes;
    permissions =
        permissions_or (content entries (io.place (backup_path path))) original.permissions;
  }

  abbrev after_backup :
      FilePath → Bool → Option ExistingFile → (FilePath → Option Entry) → FilePath → Option Entry
  after_backup path true (some original) now =
      update now (io.place (backup_path path)) (some (regular (backup_file path original)))
  after_backup path _ _ now = now

  abbrev after_write : DocumentWrite → (FilePath → Option Entry) → FilePath → Option Entry
  after_write w now =
      update (after_backup w.path w.backup (content entries (io.place w.path)) now)
        (io.place w.path) (some (regular (new_file w)))

  -- the files after every write
  outcome : List DocumentWrite → (FilePath → Option Entry) → FilePath → Option Entry
  outcome [] now = now
  outcome (w ∷ ws) now = outcome ws (after_write w now)

  abbrev BackupWritten : FilePath → Bool → Option ExistingFile → (FilePath → Option Entry) → Type 0
  BackupWritten path true (some original) now =
      now (io.place (backup_path path)) ≡ some (regular (backup_file path original))
  BackupWritten path _ _ now = Unit

  -- The file has its new contents, and the backup that was asked for the old ones.
  pub record Written (now : FilePath → Option Entry) (w : DocumentWrite) : Type 0 where
    pub target : now (io.place w.path) ≡ some (regular (new_file w))
    pub backup : BackupWritten w.path w.backup (content entries (io.place w.path)) now

  after_write_frame :
      (w : DocumentWrite) (now : FilePath → Option Entry) (x : FilePath)
      → contains (io.place w.path ∷ backup_of io entries w) x ≡ false
      → after_write w now x ≡ now x
  after_write_frame w now x h = ground arith

  outcome_frame :
      (ws : List DocumentWrite) (now : FilePath → Option Entry) (x : FilePath)
      → contains (destinations io entries ws) x ≡ false
      → outcome ws now x ≡ now x
  unfolding outcome
  outcome_frame [] now x h = refl
  outcome_frame (w ∷ ws) now x h =
      outcome_frame ws (after_write w now) x
        (ground (arith, h, contains-append x (backup_of io entries w) (destinations io entries ws)))
      ∙ after_write_frame w now x (
          ground
            (arith, h, contains-append x (backup_of io entries w) (destinations io entries ws)))

  backup_written :
      (path : FilePath) (backup : Bool) (original : Option ExistingFile)
      (now later : FilePath → Option Entry) (t : FilePath) (file : Option Entry)
      (rest : List FilePath)
      → contains (backup_place io entries path backup original ++ rest) t ≡ false
      → IsDistinct (backup_place io entries path backup original ++ rest)
      → ((x : FilePath)
          → contains rest x ≡ false
          → later x ≡ update (after_backup path backup original now) t file x)
      → BackupWritten path backup original later × IsDistinct rest
  backup_written path true (some o) now later t file rest h (once, d) frame =
      let b = io.place (backup_path path) in
      (ground (arith, frame b once, list_beq_iff b b, list_beq_iff t b, list_beq_iff b t), d)
  backup_written path true none now later t file rest h d frame = (tt, d)
  backup_written path false original now later t file rest h d frame = (tt, d)

  outcome-Written :
      (ws : List DocumentWrite) (now : FilePath → Option Entry)
      → IsDistinct (destinations io entries ws)
      → All (Written (outcome ws now)) ws
  unfolding outcome
  outcome-Written [] now d = tt
  outcome-Written (w ∷ ws) now (once, d) =
      let t = io.place w.path in
      let later = outcome ws (after_write w now) in
      let frame : (x : FilePath)
          → contains (destinations io entries ws) x ≡ false
          → later x ≡ after_write w now x =
        λ x h. outcome_frame ws (after_write w now) x h in
      let (kept, d') =
        backup_written w.path w.backup (content entries t) now later t (some (regular (new_file w)))
          (destinations io entries ws) once d frame in
      let clear : contains (destinations io entries ws) t ≡ false =
        ground
          (arith, once, contains-append t (backup_of io entries w) (destinations io entries ws)) in
      (
        record { target = ground (arith, frame t clear, list_beq_iff t t); backup = kept },
        outcome-Written ws (after_write w now) d',
      )

  abbrev with_backup : Option PendingBackup → (FilePath → Option Entry) → FilePath → Option Entry
  with_backup none now = now
  with_backup (some b) now = update now (io.place b.path) (some (regular b.replacement))

  pending_backup_outcome :
      (path : FilePath) (original : ExistingFile) (previous : Option ExistingFile)
      (backup : Option PendingBackup) (now : FilePath → Option Entry)
      → pending_backup io path original previous ≡ ok backup
      → with_backup backup now
        ≡ update now (io.place path) (
            some (
              regular (record {
                bytes = original.bytes;
                permissions = permissions_or previous original.permissions;
              })))
  unfolding pending_backup stage stage_restore
  pending_backup_outcome path original none backup now h = ground arith
  pending_backup_outcome path original (some f) backup now h = ground arith

  prepare_backup_outcome :
      (w : World) (write : DocumentWrite) (original : Option ExistingFile)
      (backup : Option PendingBackup) (now : FilePath → Option Entry)
      → w.entries ≡ entries
      → prepare_backup io w write original ≡ ok backup
      → with_backup backup now ≡ after_backup write.path write.backup original now
  unfolding prepare_backup
  prepare_backup_outcome w write none none now s h = ground arith
  prepare_backup_outcome w write none (some b) now s h = cc
  prepare_backup_outcome w write (some o) backup now s h = elim (Bool-cases write.backup) [
    | inr plain ↦
        let e : none ≡ backup = cc (rw (plain, prepare_backup) at h) in rw (← e, plain) refl
    | inl wanted ↦ elim (Result-cases (read_existing io w (backup_path write.path))) [
      | inl (e, bad) ↦ cc (rw (wanted, bad, prepare_backup) at h)
      | inr (previous, read) ↦
          let (there, _) = read_existing_lem io w (backup_path write.path) previous read in
          let there' : content entries (io.place (backup_path write.path)) ≡ previous =
            sym (rw s at there) in
          rw (wanted, there')
            (pending_backup_outcome (backup_path write.path) o previous backup now
              (rw (wanted, read, prepare_backup) at h))
    ]
  ]

  publish_backup_outcome :
      (w : World) (item : PendingWrite) (backup : Option PendingBackup)
      → (publish_backup io w item backup).2 ≡ none
      → (publish_backup io w item backup).0.entries
        ≡ update
            (with_backup backup w.entries)
            (io.place item.path)
            (some (regular item.replacement))
  unfolding publish_backup publish_target publish
  publish_backup_outcome w item none h = ground arith
  publish_backup_outcome w item (some b) h = ground arith

  prepare_published :
      (w w' : World) (write : DocumentWrite) (item : PendingWrite)
      → w.entries ≡ entries
      → prepare io w write ≡ ok item
      → (publish_item io w' item).2 ≡ none
      → (publish_item io w' item).0.entries ≡ after_write write w'.entries
  unfolding publish_item
  prepare_published w w' write item s h went =
      let p = prepare-Prepares io w write item h in
      let made =
        prepare_backup_outcome w write (content w.entries (io.place write.path)) p.backup w'.entries
          s p.made in
      let of_item : (i : PendingWrite)
          → (publish_item io w' i).2 ≡ none
          → (publish_item io w' i).0.entries
            ≡ update (with_backup i.backup w'.entries) (io.place i.path)
                (some (regular i.replacement)) =
        λ i k. publish_backup_outcome w' i i.backup k in
      of_item item went ∙ rw (← p.is_item) (rw (made, s) refl)

  publish_all-outcome :
      (w w' : World) (done : List PendingWrite) (writes : List DocumentWrite)
      (items : List PendingWrite)
      → w.entries ≡ entries
      → prepare_all io w writes ≡ ok items
      → (publish_all io w' done items).1 ≡ none
      → (publish_all io w' done items).0.entries ≡ outcome writes w'.entries
  unfolding publish_all prepare_all outcome
  publish_all-outcome w w' done [] [] s h went = refl
  publish_all-outcome w w' done [] (item ∷ items) s h went = cc
  publish_all-outcome w w' done (write ∷ writes) items s h went =
      elim (Result-cases (prepare io w write)) [
        | inl (e, p) ↦ cc (rw (p, prepare_all) at h)
        | inr (item, p) ↦ elim (Result-cases (prepare_all io w writes)) [
          | inl (e, q) ↦ cc (rw (p, q, prepare_all) at h)
          | inr (rest, q) ↦
              let whole : item ∷ rest ≡ items = cc (rw (p, q, prepare_all) at h) in
              let went' : (publish_all io w' done (item ∷ rest)).1 ≡ none = rw whole went in
              let next = (publish_item io w' item).0 in
              elim (Option-cases (publish_item io w' item).2) [
                | inl went_one ↦
                    let later =
                      publish_all-outcome w next ((publish_item io w' item).1 ∷ done) writes rest s
                        q (rw (went_one, publish_all) at went') in
                    let one = prepare_published w w' write item s p went_one in
                    rw (← whole) (rw (went_one, publish_all) (later ∙ ap (outcome writes) one))
                | inr (e, stopped) ↦ absurd (
                    failed-ne-none e
                      (rollback io next none
                        (reverse_onto rest ((publish_item io w' item).1 ∷ done)))
                      (rw (stopped, publish_all) at went'))
              ]
        ]
      ]

-- A commit that succeeds has written every target at its own place, where a link is replaced, with
-- the permissions of the file that could be read there, and every backup that was asked for with
-- the old contents of its target; all other places are as they were. No two paths to one place
-- have different identities.
pub commit_documents-Written :
    (io : Io) (w : World) (writes : List DocumentWrite)
    → Identifies io
    → (commit_documents io w writes).1 ≡ none
    → All (Written io w.entries (commit_documents io w writes).0.entries) writes
      × ((x : FilePath)
          → contains (destinations io w.entries writes) x ≡ false
          → (commit_documents io w writes).0.entries x ≡ w.entries x)
unfolding commit_documents
commit_documents-Written io w writes d h =
    elim (Result-cases (validate_document_writes io writes)) [
      | inl (bad, p) ↦ cc (rw (p, commit_documents) at h)
      | inr (seen, p) ↦ elim (Result-cases (prepare_all io w writes)) [
        | inl (bad, q) ↦ cc (rw (p, q, commit_documents) at h)
        | inr (items, q) ↦
            let went : (publish_all io w [] items).1 ≡ none = rw (p, q, commit_documents) at h in
            let same = publish_all-outcome io w.entries w w [] writes items refl q went in
            let apart = validate_document_writes-IsDistinct io w.entries d writes seen p in
            rw (p, q, commit_documents)
              (rw same (
                outcome-Written io w.entries writes w.entries apart,
                λ x clear. outcome_frame io w.entries writes w.entries x clear,
              ))
      ]
    ]
