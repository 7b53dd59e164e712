-- ===== src/PackIndex/Changes/Diff.antt =====
-- `get_changes` of packidx.rs: the difference of two file sets leads from the first to the second.
use elfshaker.Prelude.{◌≡◌, refl, arith, List, Eq, contains, returns}
use elfshaker.HashSet.{difference, IsDistinct}
use elfshaker.HashSet.Laws.{contains-difference, IsDistinct-difference}
use elfshaker.PackIndex.Types.{ChangeSet}
use elfshaker.PackIndex.Changes.{apply_changes, get_changes}
use elfshaker.PackIndex.Changes.Apply.{
  Fits, Applies, apply_changes-Applies, remove_all-Removes, insert_all-Inserts,
}

module _ {ℓ} {A : Type ℓ} ⦃e : Eq A⦄ where
  -- two sets with the same members
  abbrev pub SameMembers : List A → List A → Type ℓ
  SameMembers s t = (x : A) → contains s x ≡ contains t x

  abbrev pub changes_between : List A → List A → ChangeSet A
  changes_between set next = record { added = difference next set; removed = difference set next }

  -- The changes fit every set with the members of the first one.
  changes_between-Fits :
      (set next start : List A)
      → IsDistinct set
      → IsDistinct next
      → SameMembers start set
      → Fits start (changes_between set next)
  changes_between-Fits set next start ds dn same = record {
    distinct_removed = IsDistinct-difference set next ds;
    distinct_added = IsDistinct-difference next set dn;
    removed_there = λ x h. ground (arith, contains-difference x set next, same x, h);
    added_absent = λ x h. ground (arith, contains-difference x next set, same x, h);
  }

  -- For two sets without repetitions the assertions of `get_changes` hold: it returns the two
  -- differences, and leaves a set with the members of the second argument in the first.
  pub get_changes_lem :
      (set next : List A)
      → IsDistinct set
      → IsDistinct next
      → (set' : List A) × (get_changes set next ≡ returns (set', changes_between set next))
        × SameMembers set' next
  unfolding get_changes
  get_changes_lem set next ds dn =
      let added = difference next set in
      let removed = difference set next in
      let (mid, eq, i) =
        insert_all-Inserts set added (IsDistinct-difference next set dn)
          (λ x h. ground (arith, contains-difference x next set, h)) in
      let (set', eq', r) =
        remove_all-Removes mid removed (IsDistinct-difference set next ds)
          (λ x h. ground (arith, i.members x, contains-difference x set next, h)) in
      (
        set',
        rw eq (rw eq' refl),
        λ x. ground (
          arith,
          r.members x,
          i.members x,
          contains-difference x set next,
          contains-difference x next set,
        ),
      )

  -- Applying the changes between two sets without repetitions to any set with the members of the
  -- first gives a set with the members of the second, and no assertion fails.
  pub apply_changes-changes_between :
      (set next start : List A)
      → IsDistinct set
      → IsDistinct next
      → SameMembers start set
      → (set' : List A) × (apply_changes start (changes_between set next) ≡ returns set')
        × Applies start (changes_between set next) set'
        × SameMembers set' next
  apply_changes-changes_between set next start ds dn same =
      let (set', eq, a) =
        apply_changes-Applies start (changes_between set next)
          (changes_between-Fits set next start ds dn same) in
      (
        set',
        eq,
        a,
        λ x. ground (
          arith,
          a.members x,
          same x,
          contains-difference x set next,
          contains-difference x next set,
        ),
      )
