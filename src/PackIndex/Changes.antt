-- ===== src/PackIndex/Changes.antt =====
-- `ChangeSet` and `Snapshot` of packidx.rs: the difference of two file sets, and its application.
pub mod Apply
pub mod Diff
use elfshaker.Prelude.{
  Bool, true, false, List, [], ◌∷◌, Eq, contains, if◌then◌else◌, Run, returns, panics, ◌>>=◌, ◌>>◌,
}
use elfshaker.HashSet.{insert, remove, difference}
use elfshaker.PackIndex.Types.{ChangeSet}

-- `assert!`
abbrev pub assert : Bool → Run (Unit {0})
assert true = returns tt
assert false = panics

module _ {ℓ} {A : Type ℓ} ⦃e : Eq A⦄ where
  -- `for removed in .. { assert!(set.remove(removed)); }`
  unfoldable pub remove_all : List A → List A → Run (List A)
  unfolding remove
  remove_all set [] = returns set
  remove_all set (r ∷ rs) =
      let rest = remove_all (remove r set).0 rs in if (remove r set).1 then rest else panics

  unfoldable pub insert_all : List A → List A → Run (List A)
  unfolding insert
  insert_all set [] = returns set
  insert_all set (a ∷ as_) =
      let rest = insert_all (insert a set).0 as_ in if (insert a set).1 then rest else panics

  unfoldable pub apply_changes : List A → ChangeSet A → Run (List A)
  unfolding remove_all insert_all
  apply_changes set changes = do
    set' ← remove_all set changes.removed
    insert_all set' changes.added

  -- The changes from `set` to `next`, and what the call leaves in `set`.
  pub get_changes : List A → List A → Run (List A × ChangeSet A)
  unfolding remove_all insert_all
  get_changes set next =
      let removed = difference set next in
      let added = difference next set in
      (do
        set' ← insert_all set added
        set'' ← remove_all set' removed
        returns (set'', record { added = added; removed = removed }))
