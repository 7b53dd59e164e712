-- ===== src/BTreeMap/Laws.antt =====
-- Lookup after insertion, and maps whose keys are an initial segment.
use elfshaker.Prelude.{
  ℕ, suc, ◌+◌, ◌++◌, ◌≤◌, ◌<◌, ◌≡◌, refl, arith, some, List, [], ◌∷◌, length, eqb, if◌then◌else◌,
  Bool-cases, inl, inr,
}
use elfshaker.BTreeMap.{insert, get, IsDense}

module _ {ℓ} {V : Type ℓ} where
  pub get-insert :
      (k j : ℕ) (v : V) (m : List (ℕ × V))
      → get j (insert k v m) ≡ (if eqb k j then some v else get j m)
  unfolding get insert
  get-insert k j v [] = refl
  get-insert k j v ((i, w) ∷ m) = ground (arith, get-insert k j v m)

  -- An insertion inside the segment or at its end keeps the keys an initial segment.
  pub IsDense-insert :
      (k h : ℕ) (v : V) (m : List (ℕ × V))
      → IsDense k m
      → k ≤ h
      → h ≤ k + length m
      → IsDense k (insert h v m)
        × (length (insert h v m) ≡ (if eqb h (k + length m) then suc (length m) else length m))
  unfolding insert
  IsDense-insert k h v [] d lo hi = ground arith
  IsDense-insert k h v ((j, w) ∷ m) (e, d) lo hi = ground (arith, IsDense-insert (suc k) h v m d)

  pub get-IsDense :
      (k h : ℕ) (m : List (ℕ × V))
      → IsDense k m
      → k ≤ h
      → h < k + length m
      → (v : V) × (get h m ≡ some v)
  unfolding get
  get-IsDense k h [] d lo hi = absurd (omega arith)
  get-IsDense k h ((j, w) ∷ m) (e, d) lo hi = elim (Bool-cases (eqb j h)) [
    | inl here ↦ (w, rw here)
    | inr later ↦
        let (v, p) = get-IsDense (suc k) h m d (ground (arith, later)) (omega arith) in
        (v, rw later p)
  ]

  -- A key just past the segment is put at its end.
  pub insert_end :
      (k h : ℕ) (v : V) (m : List (ℕ × V))
      → IsDense k m
      → h ≡ k + length m
      → insert h v m ≡ m ++ (h, v) ∷ []
  unfolding insert
  insert_end k h v [] d e = refl
  insert_end k h v ((j, w) ∷ m) (q, d) e = ground (arith, insert_end (suc k) h v m d)
