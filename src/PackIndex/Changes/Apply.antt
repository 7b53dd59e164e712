-- ===== src/PackIndex/Changes/Apply.antt =====
-- `apply_changes` of packidx.rs: when its assertions hold, and the set that it leaves.
use elfshaker.Prelude.{
  ◌+◌, ◌≡◌, refl, arith, true, false, not, ◌&&◌, ◌||◌, List, [], ◌∷◌, length, Eq, Bool-cases,
  Run-cases, inl, inr, contains, returns, ==_refl, ◌∙◌,
}
use elfshaker.HashSet.{insert, without, remove, IsDistinct}
use elfshaker.HashSet.Laws.{contains-without, IsDistinct-without, length-without}
use elfshaker.PackIndex.Types.{ChangeSet}
use elfshaker.PackIndex.Changes.{remove_all, insert_all, apply_changes}

module _ {ℓ} {A : Type ℓ} ⦃e : Eq A⦄ where
  -- what `remove_all set rs` leaves
  pub record Removes (set rs set' : List A) : Type ℓ where
    pub members : (x : A) → contains set' x ≡ (contains set x && not (contains rs x))
    pub distinct : IsDistinct set → IsDistinct set'
    pub size : IsDistinct set → length set' + length rs ≡ length set

  -- what `insert_all set as` leaves
  pub record Inserts (set added set' : List A) : Type ℓ where
    pub members : (x : A) → contains set' x ≡ (contains added x || contains set x)
    pub distinct : IsDistinct set → IsDistinct set'
    pub size : length set' ≡ length set + length added

  remove_all_step :
      (set : List A) (r : A) (rs : List A)
      → contains set r ≡ true
      → remove_all set (r ∷ rs) ≡ remove_all (without r set) rs
  unfolding remove_all remove
  remove_all_step set r rs h = ground (arith, h)

  insert_all_step :
      (set : List A) (a : A) (rest : List A)
      → contains set a ≡ false
      → insert_all set (a ∷ rest) ≡ insert_all (a ∷ set) rest
  unfolding insert_all insert
  insert_all_step set a rest h = ground (arith, h)

  pub remove_all-Removes :
      (set rs : List A)
      → IsDistinct rs
      → ((x : A) → contains rs x ≡ true → contains set x ≡ true)
      → (set' : List A) × (remove_all set rs ≡ returns set') × Removes set rs set'
  unfolding remove_all
  remove_all-Removes set [] d sub = (
    set,
    refl,
    record { members = λ x. ground arith; distinct = λ h. h; size = λ h. omega arith },
  )
  remove_all-Removes set (r ∷ rs) (once, d) sub =
      let here : contains set r ≡ true = sub r (ground (arith, ==_refl r)) in
      let (set', eq, spec) =
        remove_all-Removes (without r set) rs d
          (λ x h. ground (arith, contains-without r x set, sub x, once, e.beq_iff r x, h)) in
      (
        set',
        remove_all_step set r rs here ∙ eq,
        record {
          members = λ x. ground (arith, spec.members x, contains-without r x set);
          distinct = λ h. spec.distinct (IsDistinct-without r set h);
          size = λ h.
              omega (arith, spec.size (IsDistinct-without r set h), length-without r set h here);
        },
      )

  pub insert_all-Inserts :
      (set added : List A)
      → IsDistinct added
      → ((x : A) → contains added x ≡ true → contains set x ≡ false)
      → (set' : List A) × (insert_all set added ≡ returns set') × Inserts set added set'
  unfolding insert_all
  insert_all-Inserts set [] d sub =
      (set, refl, record { members = λ x. refl; distinct = λ h. h; size = omega arith })
  insert_all-Inserts set (a ∷ rest) (once, d) sub =
      let absent : contains set a ≡ false = sub a (ground (arith, ==_refl a)) in
      let (set', eq, spec) =
        insert_all-Inserts (a ∷ set) rest d
          (λ x h. ground (arith, sub x, once, e.beq_iff a x, h)) in
      (
        set',
        insert_all_step set a rest absent ∙ eq,
        record {
          members = λ x. ground (arith, spec.members x);
          distinct = λ h. spec.distinct (absent, h);
          size = omega (arith, spec.size);
        },
      )

  -- a change set that fits the set that it is applied to
  pub record Fits (set : List A) (changes : ChangeSet A) : Type ℓ where
    pub distinct_removed : IsDistinct changes.removed
    pub distinct_added : IsDistinct changes.added
    pub removed_there : (x : A) → contains changes.removed x ≡ true → contains set x ≡ true
    pub added_absent : (x : A) → contains changes.added x ≡ true → contains set x ≡ false

  pub record Applies (set : List A) (changes : ChangeSet A) (set' : List A) : Type ℓ where
    pub members :
        (x : A)
        → contains set' x
          ≡ (contains changes.added x || (contains set x && not (contains changes.removed x)))
    pub distinct : IsDistinct set → IsDistinct set'
    pub size :
        IsDistinct set → length set' + length changes.removed ≡ length set + length changes.added

  -- Fitting changes are applied with no assertion failing.
  pub apply_changes-Applies :
      (set : List A) (changes : ChangeSet A)
      → Fits set changes
      → (set' : List A) × (apply_changes set changes ≡ returns set') × Applies set changes set'
  unfolding apply_changes
  apply_changes-Applies set changes f =
      let (mid, eq, r) =
        remove_all-Removes set changes.removed f.distinct_removed f.removed_there in
      let (set', eq', i) =
        insert_all-Inserts mid changes.added f.distinct_added
          (λ x h. ground (arith, r.members x, f.added_absent x, h)) in
      (
        set',
        rw eq eq',
        record {
          members = λ x. ground (arith, r.members x, i.members x);
          distinct = λ h. i.distinct (r.distinct h);
          size = λ h. omega (arith, r.size h, i.size);
        },
      )

  remove_all-size :
      (set rs set' : List A)
      → IsDistinct set
      → remove_all set rs ≡ returns set'
      → IsDistinct set' × (length set' + length rs ≡ length set)
  unfolding remove_all remove
  remove_all-size set [] set' d p = let same : set ≡ set' = cc in rw (← same) (d, omega arith)
  remove_all-size set (r ∷ rs) set' d p = elim (Bool-cases (contains set r)) [
    | inl there ↦
        let (d', size) =
          remove_all-size (without r set) rs set' (IsDistinct-without r set d) (rw there at p) in
        (d', omega (arith, size, length-without r set d there))
    | inr absent ↦ cc (rw absent at p)
  ]

  insert_all-size :
      (set added set' : List A)
      → IsDistinct set
      → insert_all set added ≡ returns set'
      → IsDistinct set' × (length set' ≡ length set + length added)
  unfolding insert_all insert
  insert_all-size set [] set' d p = let same : set ≡ set' = cc in rw (← same) (d, omega arith)
  insert_all-size set (a ∷ rest) set' d p = elim (Bool-cases (contains set a)) [
    | inl there ↦ cc (rw there at p)
    | inr absent ↦
        let (d', size) = insert_all-size (a ∷ set) rest set' (absent, d) (rw absent at p) in
        (d', omega (arith, size))
  ]

  -- Where no assertion fails a set without repetitions stays so, and its size follows the change
  -- set.
  pub apply_changes-size :
      (set : List A) (changes : ChangeSet A) (set' : List A)
      → IsDistinct set
      → apply_changes set changes ≡ returns set'
      → IsDistinct set' × (length set' + length changes.removed ≡ length set + length changes.added)
  unfolding apply_changes
  apply_changes-size set changes set' d p = elim (Run-cases (remove_all set changes.removed)) [
    | inl stop ↦ cc (rw stop at p)
    | inr (mid, go) ↦
        let (dm, sm) = remove_all-size set changes.removed mid d go in
        let (ds, ss) = insert_all-size mid changes.added set' dm (rw go at p) in
        (ds, omega (arith, sm, ss))
  ]
