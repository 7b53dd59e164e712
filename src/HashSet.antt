-- ===== src/HashSet.antt =====
-- Rust's `HashSet`, of std and of hashbrown, as a list without repetitions. The order of the list
-- stands for the unspecified order of iteration.
pub mod Laws
use elfshaker.Prelude.{
  ◌≡◌, Bool, true, false, not, List, [], ◌∷◌, Eq, ◌==◌, contains, if◌then◌else◌,
}

module _ {ℓ} {A : Type ℓ} ⦃e : Eq A⦄ where
  -- `insert` answers whether the element was new
  unfoldable pub insert : A → List A → List A × Bool
  insert a s = if contains s a then (s, false) else (a ∷ s, true)

  unfoldable pub without : A → List A → List A
  without a [] = []
  without a (x ∷ xs) = let rest = without a xs in if x == a then rest else x ∷ rest

  -- `remove` answers whether the element was there
  unfoldable pub remove : A → List A → List A × Bool
  unfolding without
  remove a s = if contains s a then (without a s, true) else (s, false)

  -- `a.difference(b)`
  unfoldable pub difference : List A → List A → List A
  difference [] b = []
  difference (x ∷ xs) b = let rest = difference xs b in if contains b x then rest else x ∷ rest

  -- `a.intersection(b)`
  unfoldable pub intersection : List A → List A → List A
  intersection [] b = []
  intersection (x ∷ xs) b = let rest = intersection xs b in if contains b x then x ∷ rest else rest

  -- `iter.collect()`
  unfoldable pub collect : List A → List A
  unfolding insert
  collect [] = []
  collect (x ∷ xs) = (insert x (collect xs)).0

  -- no element stands twice
  abbrev pub IsDistinct : List A → Type 0
  IsDistinct [] = Unit
  IsDistinct (x ∷ xs) = (contains xs x ≡ false) × IsDistinct xs
