-- ===== src/BTreeMap.antt =====
-- `BTreeMap` with numbers for keys: pairs in ascending order of the keys.
pub mod Laws
use elfshaker.Prelude.{ℕ, suc, ◌≡◌, Option, none, some, List, [], ◌∷◌, ltb, eqb, if◌then◌else◌}

module _ {ℓ} {V : Type ℓ} where
  unfoldable pub insert : ℕ → V → List (ℕ × V) → List (ℕ × V)
  insert k v [] = (k, v) ∷ []
  insert k v ((j, w) ∷ m) =
      let rest = insert k v m in
      if ltb k j then (k, v) ∷ (j, w) ∷ m else if eqb k j then (k, v) ∷ m else (j, w) ∷ rest

  unfoldable pub get : ℕ → List (ℕ × V) → Option V
  get k [] = none
  get k ((j, w) ∷ m) = if eqb j k then some w else get k m

  unfoldable pub values : List (ℕ × V) → List V
  values [] = []
  values ((j, w) ∷ m) = w ∷ values m

  -- the keys are k, k + 1, …
  abbrev pub IsDense : ℕ → List (ℕ × V) → Type 0
  IsDense k [] = Unit
  IsDense k ((j, w) ∷ m) = (j ≡ k) × IsDense (suc k) m
