-- ===== src/Esi/Commit/Rollback.antt =====
-- `rollback` of esi.rs: what was published is put back.
use elfshaker.Prelude.{
  ◌≡◌, refl, arith, subst, Bool, true, false, ◌&&◌, ◌||◌, Option, none, some, List, [], ◌∷◌, All,
  if◌then◌else◌, list_beq_iff, list_eq, nat_eq, ◌==◌,
}
use elfshaker.Esi.Commit.{
  FilePath, Entry, as_entry, IoError, ExistingFile, PendingBackup, PendingWrite, World, Io, is_some,
  first_of_two, publish, remove_if_exists, undo, undo_backup, rollback,
}

module _ (io : Io) where
  abbrev pub backup_touches : Option PendingBackup → FilePath → Bool
  backup_touches none x = false
  backup_touches (some b) x = b.published && io.place b.path == x

  abbrev pub item_touches : PendingWrite → FilePath → Bool
  item_touches item x = item.published && io.place item.path == x || backup_touches item.backup x

  -- some item has published at the place
  abbrev pub touches : List PendingWrite → FilePath → Bool
  touches [] x = false
  touches (item ∷ items) x = item_touches item x || touches items x

  module _ (before : FilePath → Option Entry) where
    abbrev pub BackupRestores : Option PendingBackup → Type 0
    BackupRestores none = Unit
    BackupRestores (some b) =
        (as_entry b.restore ≡ before (io.place b.path)) × (b.existed ≡ is_some b.restore)

    -- the item has a copy of what stood at its places
    pub record Restores (item : PendingWrite) : Type 0 where
      pub restore : as_entry item.restore ≡ before (io.place item.path)
      pub existed : item.existed ≡ is_some item.restore
      pub backup : BackupRestores item.backup

    undo_lem :
        (w : World) (published : Bool) (path : FilePath) (restore : Option ExistingFile)
        (existed : Bool)
        → (undo io w published path restore existed).1 ≡ none
        → as_entry restore ≡ before (io.place path)
        → existed ≡ is_some restore
        → (x : FilePath)
        → (undo io w published path restore existed).0.entries x
          ≡ (if published && io.place path == x then before x else w.entries x)
    unfolding undo publish remove_if_exists
    undo_lem w false path restore existed h r e x = refl
    undo_lem w true path (some file) existed h r e x =
        ground (arith, list_beq_iff (io.place path) x)
    undo_lem w true path none true h r e x = cc
    undo_lem w true path none false h r e x = ground (arith, list_beq_iff (io.place path) x)

    undo_backup_lem :
        (w : World) (backup : Option PendingBackup)
        → (undo_backup io w backup).1 ≡ none
        → BackupRestores backup
        → (x : FilePath)
        → (undo_backup io w backup).0.entries x
          ≡ (if backup_touches backup x then before x else w.entries x)
    unfolding undo_backup
    undo_backup_lem w none h r x = refl
    undo_backup_lem w (some b) h r x = undo_lem w b.published b.path b.restore b.existed h r.0 r.1 x

    -- an error that is kept stays
    rollback_failed :
        (e : IoError) (items : List PendingWrite) (w : World)
        → (rollback io w (some e) items).1 ≡ some e
    unfolding rollback
    rollback_failed e [] w = refl
    rollback_failed e (item ∷ items) w = rollback_failed e items _

    first_none :
        (w : World) (a b : Option IoError) (items : List PendingWrite)
        → (rollback io w (first_of_two (first_of_two none a) b) items).1 ≡ none
        → (a ≡ none) × (b ≡ none)
    first_none w none none items h = (refl, refl)
    first_none w none (some e) items h = cc (rollback_failed e items w)
    first_none w (some e) b items h = cc (rollback_failed e items w)

    -- A rollback without an error leaves what stood there before at every place that an item
    -- published to, and the other places alone.
    pub rollback_lem :
        (w : World) (items : List PendingWrite)
        → All Restores items
        → (rollback io w none items).1 ≡ none
        → (x : FilePath)
        → (rollback io w none items).0.entries x
          ≡ (if touches items x then before x else w.entries x)
    unfolding rollback
    rollback_lem w [] rs h x = refl
    rollback_lem w (item ∷ items) (r, rs) h x =
        let one = undo io w item.published item.path item.restore item.existed in
        let two = undo_backup io one.0 item.backup in
        let (a, b) = first_none two.0 one.1 two.1 items h in
        let start : (rollback io two.0 (first_of_two (first_of_two none one.1) two.1) items)
            ≡ rollback io two.0 none items =
          rw (a, b) refl in
        let h' = subst (λ (t : World × Option IoError). t.1 ≡ none) start h in
        rw start (
          ground (
            arith,
            rollback_lem two.0 items rs h' x,
            undo_backup_lem one.0 item.backup b r.backup x,
            undo_lem w item.published item.path item.restore item.existed a r.restore r.existed x,
          ))
