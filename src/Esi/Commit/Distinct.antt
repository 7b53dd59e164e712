-- ===== src/Esi/Commit/Distinct.antt =====
-- `validate_document_writes` of esi.rs: the places that a commit writes to are different.
use elfshaker.Prelude.{
  ◌≡◌, ◌⊎◌, refl, arith, Bool, true, false, ◌||◌, Option, none, some, List, [], ◌∷◌, ◌++◌, All,
  Bool-cases, Result-cases, ok, inl, inr, list_beq_iff, list_eq, nat_eq, ◌==◌, contains,
}
use elfshaker.HashSet
use elfshaker.HashSet.{IsDistinct}
use elfshaker.HashSet.Laws.{contains-append}
use elfshaker.Esi.Commit.Prepare.{content}
use elfshaker.Esi.Commit.{
  FilePath, Entry, ExistingFile, DocumentWrite, Io, backup_path, path_identity, see_targets,
  see_backups, validate_document_writes,
}

-- Two paths to one place have one identity.
pub record Identifies (io : Io) : Type 0 where
  pub identity :
      (p q : FilePath) (i j : FilePath)
      → path_identity io p ≡ ok i
      → path_identity io q ≡ ok j
      → io.place p ≡ io.place q
      → i ≡ j

module _ (io : Io) (entries : FilePath → Option Entry) where
  abbrev pub target_places : List DocumentWrite → List FilePath
  target_places [] = []
  target_places (w ∷ ws) = io.place w.path ∷ target_places ws

  abbrev pub backup_place : FilePath → Bool → Option ExistingFile → List FilePath
  backup_place path true (some file) = io.place (backup_path path) ∷ []
  backup_place path _ _ = []

  -- the place of the backup, where there is something to keep
  abbrev pub backup_of : DocumentWrite → List FilePath
  backup_of w = backup_place w.path w.backup (content entries (io.place w.path))

  abbrev pub backup_places : List DocumentWrite → List FilePath
  backup_places [] = []
  backup_places (w ∷ ws) = backup_of w ++ backup_places ws

  -- every place that the commit writes to
  abbrev pub destinations : List DocumentWrite → List FilePath
  destinations [] = []
  destinations (w ∷ ws) = io.place w.path ∷ backup_of w ++ destinations ws

  contains-destinations :
      (x : FilePath) (ws : List DocumentWrite)
      → contains (destinations ws) x
        ≡ (contains (target_places ws) x || contains (backup_places ws) x)
  contains-destinations x [] = refl
  contains-destinations x (w ∷ ws) = ground (
    arith,
    contains-append x (backup_of w) (destinations ws),
    contains-append x (backup_of w) (backup_places ws),
    contains-destinations x ws,
  )

  -- no target is the place of a backup
  abbrev Apart : List FilePath → List DocumentWrite → Type 0
  Apart places = All (λ w. contains places (io.place w.path) ≡ false)

  Apart-target :
      (x : FilePath) (places : List FilePath) (ws : List DocumentWrite)
      → contains places x ≡ true
      → Apart places ws
      → contains (target_places ws) x ≡ false
  Apart-target x places [] h a = refl
  Apart-target x places (w ∷ ws) h (p, a) = elim (Bool-cases (io.place w.path == x)) [
    | inl same ↦ let e = (list_beq_iff (io.place w.path) x).0 same in cc (rw e at p)
    | inr other ↦ rw other (Apart-target x places ws h a)
  ]

  Apart-tail :
      (more places : List FilePath) (ws : List DocumentWrite)
      → Apart (more ++ places) ws
      → Apart places ws
  Apart-tail more places [] a = tt
  Apart-tail more places (w ∷ ws) (p, a) =
      (ground (arith, contains-append (io.place w.path) more places), Apart-tail more places ws a)

  backup_place-cases :
      (path : FilePath) (backup : Bool) (file : Option ExistingFile)
      → (backup_place path backup file ≡ [])
        ⊎ ((b : FilePath) × (backup_place path backup file ≡ b ∷ [])
            × (b ≡ io.place (backup_path path))
            × (backup ≡ true))
  backup_place-cases path true (some file) = inr (io.place (backup_path path), refl, refl, refl)
  backup_place-cases path true none = inl refl
  backup_place-cases path false file = inl refl

  destinations-IsDistinct :
      (ws : List DocumentWrite)
      → IsDistinct (target_places ws)
      → IsDistinct (backup_places ws)
      → Apart (backup_places ws) ws
      → IsDistinct (destinations ws)
  destinations-IsDistinct [] t b a = tt
  destinations-IsDistinct (w ∷ ws) (t, ts) b (p, a) =
      elim (backup_place-cases w.path w.backup (content entries (io.place w.path))) [
        | inl e ↦
            let b' : IsDistinct (backup_places ws) = rw e at b in
            let a' : Apart (backup_places ws) ws = rw e at a in
            let p' : contains (backup_places ws) (io.place w.path) ≡ false = rw e at p in
            rw e (
              ground (arith, contains-destinations (io.place w.path) ws),
              destinations-IsDistinct ws ts b' a',
            )
        | inr (x, e, _, _) ↦
            let (once, b') = rw e at b in
            let a' : Apart (x ∷ backup_places ws) ws = rw e at a in
            let p' : contains (x ∷ backup_places ws) (io.place w.path) ≡ false = rw e at p in
            let clear =
              Apart-target x (x ∷ backup_places ws) ws (ground (arith, list_beq_iff x x)) a' in
            rw e (
              ground (arith, contains-destinations (io.place w.path) ws),
              (
                ground (arith, contains-destinations x ws, once),
                destinations-IsDistinct ws ts b' (Apart-tail (x ∷ []) (backup_places ws) ws a'),
              ),
            )
      ]

  module _ (d : Identifies io) where
    -- a place whose identity was seen is none of the others
    abbrev Clear : List FilePath → List FilePath → Type 0
    Clear seen places =
        (p i : FilePath)
        → path_identity io p ≡ ok i
        → contains seen i ≡ true
        → contains places (io.place p) ≡ false

    abbrev Seen : List FilePath → List DocumentWrite → Type 0
    Seen seen =
        All λ w. (i : FilePath) × (path_identity io w.path ≡ ok i) × (contains seen i ≡ true)

    -- what was seen before a path and the path itself are clear of the places behind it
    Clear-cons :
        (seen places : List FilePath) (p i : FilePath)
        → path_identity io p ≡ ok i
        → contains seen i ≡ false
        → Clear (i ∷ seen) places
        → Clear seen (io.place p ∷ places)
    Clear-cons seen places p i e new c q j f there = elim (Bool-cases (io.place p == io.place q)) [
      | inl same ↦
          let k = d.identity p q i j e f ((list_beq_iff (io.place p) (io.place q)).0 same) in
          cc (rw (← k) at there)
      | inr other ↦ rw other (c q j f (ground (arith, there)))
    ]

    insert_fresh :
        (i : FilePath) (seen : List FilePath)
        → (HashSet.insert i seen).1 ≡ true
        → (contains seen i ≡ false) × ((HashSet.insert i seen).0 ≡ i ∷ seen)
    unfolding HashSet.insert
    insert_fresh i seen h = ground arith

    see_targets_lem :
        (seen seen' : List FilePath) (ws : List DocumentWrite)
        → see_targets io seen ws ≡ ok seen'
        → Clear seen (target_places ws)
          × IsDistinct (target_places ws)
          × ((i : FilePath) → contains seen i ≡ true → contains seen' i ≡ true)
          × Seen seen' ws
    unfolding see_targets
    see_targets_lem seen seen' [] h = (λ p i e t. refl, tt, λ i t. ground arith, tt)
    see_targets_lem seen seen' (w ∷ ws) h = elim (Result-cases (path_identity io w.path)) [
      | inl (e, bad) ↦ cc (rw (bad, see_targets) at h)
      | inr (i, found) ↦ elim (Bool-cases (HashSet.insert i seen).1) [
        | inr old ↦ cc (rw (found, old, see_targets) at h)
        | inl fresh ↦
            let (new, grown) = insert_fresh i seen fresh in
            let h' : see_targets io (i ∷ seen) ws ≡ ok seen' =
              rw grown at (rw (found, fresh, see_targets) at h) in
            let (c, ts, keeps, rest) = see_targets_lem (i ∷ seen) seen' ws h' in
            let there : contains (i ∷ seen) i ≡ true = ground (arith, list_beq_iff i i) in
            (
              Clear-cons seen (target_places ws) w.path i found new c,
              (c w.path i found there, ts),
              λ j t. keeps j (ground (arith, t)),
              ((i, found, keeps i there), rest),
            )
      ]
    ]

    see_backups_lem :
        (seen seen' : List FilePath) (ws : List DocumentWrite)
        → see_backups io seen ws ≡ ok seen'
        → Clear seen (backup_places ws) × IsDistinct (backup_places ws)
    unfolding see_backups
    see_backups_lem seen seen' [] h = (λ p i e t. refl, tt)
    see_backups_lem seen seen' (w ∷ ws) h = elim (Bool-cases w.backup) [
      | inr plain ↦
          let h' : see_backups io seen ws ≡ ok seen' = rw (plain, see_backups) at h in
          rw plain (see_backups_lem seen seen' ws h')
      | inl wanted ↦ elim (Result-cases (path_identity io (backup_path w.path))) [
        | inl (e, bad) ↦ cc (rw (wanted, bad, see_backups) at h)
        | inr (i, found) ↦ elim (Bool-cases (HashSet.insert i seen).1) [
          | inr old ↦ cc (rw (wanted, found, old, see_backups) at h)
          | inl fresh ↦
              let (new, grown) = insert_fresh i seen fresh in
              let h' : see_backups io (i ∷ seen) ws ≡ ok seen' =
                rw grown at (rw (wanted, found, fresh, see_backups) at h) in
              let (c, ts) = see_backups_lem (i ∷ seen) seen' ws h' in
              let there : contains (i ∷ seen) i ≡ true = ground (arith, list_beq_iff i i) in
              elim (backup_place-cases w.path w.backup (content entries (io.place w.path))) [
                | inl e ↦ rw e (λ p j f t. c p j f (ground (arith, t)), ts)
                | inr (b, e, p, _) ↦
                    rw (e, p)
                      (
                        Clear-cons seen (backup_places ws) (backup_path w.path) i found new c,
                        (c (backup_path w.path) i found there, ts),
                      )
              ]
        ]
      ]
    ]

    Apart-Clear :
        (seen places : List FilePath) (ws : List DocumentWrite)
        → Clear seen places
        → Seen seen ws
        → Apart places ws
    Apart-Clear seen places [] c s = tt
    Apart-Clear seen places (w ∷ ws) c ((i, found, there), s) =
        (c w.path i found there, Apart-Clear seen places ws c s)

    -- Writes that are accepted go to different places.
    pub validate_document_writes-IsDistinct :
        (ws : List DocumentWrite) (seen : List FilePath)
        → validate_document_writes io ws ≡ ok seen
        → IsDistinct (destinations ws)
    unfolding validate_document_writes
    validate_document_writes-IsDistinct ws seen h = elim (Result-cases (see_targets io [] ws)) [
      | inl (e, bad) ↦ cc (rw (bad, validate_document_writes) at h)
      | inr (targets, found) ↦
          let h' : see_backups io targets ws ≡ ok seen =
            rw (found, validate_document_writes) at h in
          let (_, ts, _, all) = see_targets_lem [] targets ws found in
          let (c, bs) = see_backups_lem targets seen ws h' in
          destinations-IsDistinct ws ts bs (Apart-Clear targets (backup_places ws) ws c all)
    ]
