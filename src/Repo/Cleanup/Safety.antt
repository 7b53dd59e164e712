-- ===== src/Repo/Cleanup/Safety.antt =====
-- The removal of empty directories ends, and removes nothing else.
use elfshaker.Prelude.{
  ℕ, suc, zero, ◌<◌, ◌≡◌, refl, sym, arith, subst, true, ◌&&◌, ◌||◌, Option, none, some, List, [],
  ◌∷◌, length, contains, Bool-cases, Result-cases, Option-cases, inl, inr, Result, ok, err, Run,
  returns, ◌>>=◌, ◌==◌, list_eq, nat_eq, All,
}
use elfshaker.Repo.Clean.{Names, drop_last, starts_with}
use elfshaker.Repo.Cleanup.{
  Store, IoError, not_found, directory_not_empty, not_a_directory, os, is_below, any_below, Outcome,
  strip_prefix, contains_parent_dir_component, remove_dir, remove_from, remove_empty_dirs, Queue,
  enqueue, process,
}
use elfshaker.Repo.Cleanup.Cleaned.{
  Cleaned, Cleaned-refl, Cleaned-trans, without-Cleaned, IsLeaf, strip_prefix-append, shorter,
  parent-IsLeaf,
}

module _ (fault : Names → Option ℕ) where
  remove_dir-Cleaned :
      (boundary : Names) (st : Store) (d : Names)
      → is_below boundary d ≡ true
      → Cleaned boundary st (remove_dir fault st d).0
  unfolding remove_dir
  remove_dir-Cleaned boundary st d below = elim (Option-cases (fault d)) [
    | inr (e, bad) ↦ rw (bad, remove_dir) (Cleaned-refl boundary st)
    | inl fine ↦ elim (Bool-cases (contains st.others d)) [
      | inl file ↦ rw (fine, file, remove_dir) (Cleaned-refl boundary st)
      | inr no_file ↦ elim (Bool-cases (contains st.dirs d)) [
        | inr missing ↦ rw (fine, no_file, missing, remove_dir) (Cleaned-refl boundary st)
        | inl there ↦ elim (Bool-cases (any_below d st.dirs || any_below d st.others)) [
          | inl full ↦ rw (fine, no_file, there, full, remove_dir) (Cleaned-refl boundary st)
          | inr empty ↦
              rw (fine, no_file, there, empty, remove_dir)
                (without-Cleaned boundary st d below (ground arith) (ground arith))
        ]
      ]
    ]
  ]

  -- It ends, without a failed assertion, and has only removed directories.
  abbrev pub Ends : Names → Store → Run Outcome → Type 0
  Ends boundary st run = (out : Outcome) × (run ≡ returns out) × Cleaned boundary st out.0

  remove_from-Ends :
      (fuel : ℕ) (st : Store) (leaf boundary : Names)
      → length leaf < fuel
      → IsLeaf boundary leaf
      → Ends boundary st (remove_from fault fuel st leaf boundary)
  unfolding remove_from contains_parent_dir_component
  remove_from-Ends zero st leaf boundary enough l = absurd (omega (arith, enough))
  remove_from-Ends (suc fuel) st leaf boundary enough l =
      let stripped : strip_prefix boundary leaf ≡ some l.relative =
        subst (λ x. strip_prefix boundary x ≡ some l.relative) (sym l.inside)
          (strip_prefix-append boundary l.relative) in
      elim (Bool-cases (leaf == boundary)) [
        | inl top ↦ (
          (st, ok tt),
          rw (stripped, l.no_parent, top, remove_from, contains_parent_dir_component) refl,
          Cleaned-refl boundary st,
        )
        | inr other ↦
            let (up, nonempty, below) = parent-IsLeaf boundary leaf l other in
            let c = remove_dir-Cleaned boundary st leaf below in
            elim (Result-cases (remove_dir fault st leaf).1) [
              | inl (directory_not_empty, e) ↦ (
                (st, ok tt),
                rw (stripped, l.no_parent, other, e, remove_from, contains_parent_dir_component)
                    refl,
                Cleaned-refl boundary st,
              )
              | inl (not_found, e) ↦ (
                (st, ok tt),
                rw (stripped, l.no_parent, other, e, remove_from, contains_parent_dir_component)
                    refl,
                Cleaned-refl boundary st,
              )
              | inl (not_a_directory, e) ↦ (
                (st, err not_a_directory),
                rw (stripped, l.no_parent, other, e, remove_from, contains_parent_dir_component)
                    refl,
                Cleaned-refl boundary st,
              )
              | inl (os n, e) ↦ (
                (st, err (os n)),
                rw (stripped, l.no_parent, other, e, remove_from, contains_parent_dir_component)
                    refl,
                Cleaned-refl boundary st,
              )
              | inr (u, e) ↦ elim (Bool-cases (drop_last leaf == boundary)) [
                | inl last ↦ (
                  ((remove_dir fault st leaf).0, ok tt),
                  rw
                      (
                        stripped, l.no_parent, other, e, last, remove_from,
                        contains_parent_dir_component,
                      )
                      refl,
                  c,
                )
                | inr more ↦
                    let (out, went, d) =
                      remove_from-Ends fuel (remove_dir fault st leaf).0 (drop_last leaf) boundary
                        (omega (arith, enough, shorter leaf nonempty)) up in
                    (
                      out,
                      rw
                          (
                            stripped, l.no_parent, other, e, more, remove_from,
                            contains_parent_dir_component,
                          )
                          went,
                      Cleaned-trans boundary st (remove_dir fault st leaf).0 out.0 c d,
                    )
              ]
            ]
      ]

  remove_empty_dirs-Ends :
      (st : Store) (leaf boundary : Names)
      → IsLeaf boundary leaf
      → Ends boundary st (remove_empty_dirs fault st leaf boundary)
  unfolding remove_empty_dirs
  remove_empty_dirs-Ends st leaf boundary l =
      remove_from-Ends (suc (length leaf)) st leaf boundary (omega arith) l

  -- the calls on one queue: directories under one boundary, and `process` at the end or after an error
  unfoldable pub clean_up : Store → Queue fault → List Names → Names → Run Outcome
  clean_up st queue [] boundary = process fault st queue
  clean_up st queue (leaf ∷ leaves) boundary = enqueue fault st queue leaf boundary >>= λ next.
      (let rest = clean_up next.0 next.1 leaves boundary in
        elim next.2 [ err e ↦ returns (next.0, err e) | ok _ ↦ rest ])

  -- what the queue holds is a leaf below the boundary
  abbrev IsQueue : Names → Queue fault → Type 0
  IsQueue boundary none = Unit
  IsQueue boundary (some (leaf, b)) = (b ≡ boundary) × IsLeaf boundary leaf

  process-Ends :
      (st : Store) (queue : Queue fault) (boundary : Names)
      → IsQueue boundary queue
      → Ends boundary st (process fault st queue)
  unfolding process
  process-Ends st none boundary q = ((st, ok tt), refl, Cleaned-refl boundary st)
  process-Ends st (some (leaf, b)) boundary (same, l) =
      subst (λ x. Ends boundary st (remove_empty_dirs fault st leaf x)) (sym same)
        (remove_empty_dirs-Ends st leaf boundary l)

  -- what comes of an `enqueue`
  record Enqueued (boundary : Names) (st : Store)
      (run : Run (Store × Queue fault × Result IoError (Unit {0}))) : Type 0 where
    next : Store × Queue fault × Result IoError (Unit {0})
    went : run ≡ returns next
    cleaned : Cleaned boundary st next.0
    queued : IsQueue boundary next.1

  enqueue-Enqueued :
      (st : Store) (queue : Queue fault) (leaf boundary : Names)
      → IsQueue boundary queue
      → IsLeaf boundary leaf
      → Enqueued boundary st (enqueue fault st queue leaf boundary)
  unfolding enqueue
  enqueue-Enqueued st none leaf boundary q l = record {
    next = (st, some (leaf, boundary), ok tt);
    went = refl;
    cleaned = Cleaned-refl boundary st;
    queued = (refl, l);
  }
  enqueue-Enqueued st (some (last_leaf, b)) leaf boundary (same, last) l =
      let (out, went, c) = remove_empty_dirs-Ends st last_leaf boundary last in
      let went' : remove_empty_dirs fault st last_leaf b ≡ returns out =
        subst (λ x. remove_empty_dirs fault st last_leaf x ≡ returns out) (sym same) went in
      elim (Bool-cases (b == boundary && starts_with last_leaf leaf)) [
        | inl deeper ↦ record {
          next = (st, some (leaf, b), ok tt);
          went = rw (deeper, enqueue) refl;
          cleaned = Cleaned-refl boundary st;
          queued = (same, l);
        }
        | inr elsewhere ↦ elim (Result-cases out.1) [
          | inl (e, bad) ↦ record {
            next = (out.0, some (last_leaf, b), err e);
            went = rw (elsewhere, went', ◌>>=◌, bad, enqueue) refl;
            cleaned = c;
            queued = (same, last);
          }
          | inr (u, good) ↦ record {
            next = (out.0, some (leaf, boundary), ok tt);
            went = rw (elsewhere, went', ◌>>=◌, good, enqueue) refl;
            cleaned = c;
            queued = (refl, l);
          }
        ]
      ]

  clean_up-queue :
      (st : Store) (queue : Queue fault) (leaves : List Names) (boundary : Names)
      → IsQueue boundary queue
      → All (IsLeaf boundary) leaves
      → Ends boundary st (clean_up st queue leaves boundary)
  unfolding clean_up
  clean_up-queue st queue [] boundary q ls = process-Ends st queue boundary q
  clean_up-queue st queue (leaf ∷ leaves) boundary q (l, ls) =
      let e = enqueue-Enqueued st queue leaf boundary q l in
      elim (Result-cases e.next.2) [
        | inl (x, bad) ↦ ((e.next.0, err x), rw (e.went, ◌>>=◌, bad, clean_up) refl, e.cleaned)
        | inr (u, good) ↦
            let (out, went, c) = clean_up-queue e.next.0 e.next.1 leaves boundary e.queued ls in
            (
              out,
              rw (e.went, ◌>>=◌, good, clean_up) went,
              Cleaned-trans boundary st e.next.0 out.0 e.cleaned c,
            )
      ]

  -- Whatever leaves below one boundary are queued, with faults or without, the calls end and no
  -- assertion fails. The files and links stay; a directory is gone only where it is strictly below
  -- the boundary, and then nothing that is left is below it.
  pub clean_up-Ends :
      (st : Store) (leaves : List Names) (boundary : Names)
      → All (IsLeaf boundary) leaves
      → Ends boundary st (clean_up st none leaves boundary)
  clean_up-Ends st leaves boundary ls = clean_up-queue st none leaves boundary tt ls
