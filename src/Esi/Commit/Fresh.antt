-- ===== src/Esi/Commit/Fresh.antt =====
-- `commit_documents` of esi.rs: what is prepared restores the files, and none of it is published.
use elfshaker.Prelude.{
  ◌≡◌, refl, arith, subst, false, Option, none, some, List, [], ◌∷◌, All, Bool-cases, Result-cases,
  ok, inl, inr, list_eq, nat_eq,
}
use elfshaker.Esi.Commit.{
  as_entry, backup_path, ExistingFile, DocumentWrite, PendingBackup, PendingWrite, World, Io,
  prepare, prepare_all, prepare_backup, pending_backup, read_existing, stage, stage_restore,
}
use elfshaker.Esi.Commit.Prepare.{content, restored, read_existing_lem, prepare-Prepares}
use elfshaker.Esi.Commit.Rollback.{BackupRestores, Restores}

abbrev pub FreshBackup : Option PendingBackup → Type 0
FreshBackup none = Unit
FreshBackup (some b) = b.published ≡ false

-- nothing of the item is published yet
abbrev pub IsFresh : PendingWrite → Type 0
IsFresh item = (item.published ≡ false) × FreshBackup item.backup

module _ (io : Io) where
  backup_lem :
      (w : World) (write : DocumentWrite) (original : ExistingFile) (previous : Option ExistingFile)
      (b : PendingBackup)
      → as_entry previous ≡ restored w.entries (io.place (backup_path write.path))
      → pending_backup io (backup_path write.path) original previous ≡ ok (some b)
      → BackupRestores io (restored w.entries) (some b) × FreshBackup (some b)
  unfolding pending_backup stage stage_restore
  backup_lem w write original none b kept h = ground arith
  backup_lem w write original (some p) b kept h = ground arith

  prepare_backup_lem :
      (w : World) (write : DocumentWrite) (original : Option ExistingFile)
      (backup : Option PendingBackup)
      → prepare_backup io w write original ≡ ok backup
      → BackupRestores io (restored w.entries) backup × FreshBackup backup
  unfolding prepare_backup
  prepare_backup_lem w write none none h = (tt, tt)
  prepare_backup_lem w write none (some b) h = cc
  prepare_backup_lem w write (some original) none h = (tt, tt)
  prepare_backup_lem w write (some original) (some b) h = elim (Bool-cases write.backup) [
    | inr plain ↦ cc (rw (plain, prepare_backup) at h)
    | inl wanted ↦ elim (Result-cases (read_existing io w (backup_path write.path))) [
      | inl (e, bad) ↦ cc (rw (wanted, bad, prepare_backup) at h)
      | inr (previous, read) ↦
          let (_, kept) = read_existing_lem io w (backup_path write.path) previous read in
          backup_lem w write original previous b kept (rw (wanted, read, prepare_backup) at h)
    ]
  ]

  prepare_lem :
      (w : World) (write : DocumentWrite) (item : PendingWrite)
      → prepare io w write ≡ ok item
      → Restores io (restored w.entries) item × IsFresh item
  prepare_lem w write item h =
      let p = prepare-Prepares io w write item h in
      let (keeps, fresh) =
        prepare_backup_lem w write (content w.entries (io.place write.path)) p.backup p.made in
      subst (λ (i : PendingWrite). Restores io (restored w.entries) i × IsFresh i) p.is_item
        (record { restore = p.kept; existed = refl; backup = keeps }, (refl, fresh))

  pub prepare_all_lem :
      (w : World) (writes : List DocumentWrite) (items : List PendingWrite)
      → prepare_all io w writes ≡ ok items
      → All (Restores io (restored w.entries)) items × All IsFresh items
  unfolding prepare_all
  prepare_all_lem w [] [] h = (tt, tt)
  prepare_all_lem w [] (item ∷ items) h = cc
  prepare_all_lem w (write ∷ writes) items h = elim (Result-cases (prepare io w write)) [
    | inl (e, p) ↦ cc (rw (p, prepare_all) at h)
    | inr (item, p) ↦ elim (Result-cases (prepare_all io w writes)) [
      | inl (e, q) ↦ cc (rw (p, q, prepare_all) at h)
      | inr (rest, q) ↦
          let whole : item ∷ rest ≡ items = cc (rw (p, q, prepare_all) at h) in
          let (r, f) = prepare_lem w write item p in
          let (rs, fs) = prepare_all_lem w writes rest q in
          subst (λ l. All (Restores io (restored w.entries)) l × All IsFresh l) whole
            ((r, rs), (f, fs))
    ]
  ]
