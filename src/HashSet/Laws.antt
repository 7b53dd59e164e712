-- ===== src/HashSet/Laws.antt =====
-- Membership and size after each operation of a `HashSet`.
use elfshaker.Prelude.{
  suc, ◌≡◌, refl, ap, arith, true, false, not, ◌&&◌, ◌||◌, List, [], ◌∷◌, ◌++◌, length, Eq, ◌==◌,
  contains, Bool-cases, inl, inr,
}
use elfshaker.HashSet.{insert, without, difference, intersection, collect, IsDistinct}

module _ {ℓ} {A : Type ℓ} ⦃e : Eq A⦄ where
  pub contains-without :
      (a x : A) (s : List A) → contains (without a s) x ≡ (contains s x && not (a == x))
  unfolding without
  contains-without a x [] = refl
  contains-without a x (y ∷ ys) =
      ground (arith, contains-without a x ys, e.beq_iff y a, e.beq_iff y x, e.beq_iff a x)

  pub contains-difference :
      (x : A) (s t : List A) → contains (difference s t) x ≡ (contains s x && not (contains t x))
  unfolding difference
  contains-difference x [] t = refl
  contains-difference x (y ∷ ys) t = ground (arith, contains-difference x ys t, e.beq_iff y x)

  pub contains-intersection :
      (x : A) (s t : List A) → contains (intersection s t) x ≡ (contains s x && contains t x)
  unfolding intersection
  contains-intersection x [] t = refl
  contains-intersection x (y ∷ ys) t = ground (arith, contains-intersection x ys t, e.beq_iff y x)

  pub contains-append :
      (x : A) (s t : List A) → contains (s ++ t) x ≡ (contains s x || contains t x)
  contains-append x [] t = refl
  contains-append x (y ∷ ys) t = ground (arith, contains-append x ys t)

  pub contains-collect : (x : A) (xs : List A) → contains (collect xs) x ≡ contains xs x
  unfolding collect insert
  contains-collect x [] = refl
  contains-collect x (y ∷ ys) =
      ground (arith, contains-collect x ys, contains-collect y ys, e.beq_iff y x)

  without_absent : (a : A) (s : List A) → contains s a ≡ false → without a s ≡ s
  unfolding without
  without_absent a [] h = refl
  without_absent a (y ∷ ys) h = ground (arith, without_absent a ys)

  pub IsDistinct-without : (a : A) (s : List A) → IsDistinct s → IsDistinct (without a s)
  unfolding without
  IsDistinct-without a [] d = tt
  IsDistinct-without a (y ∷ ys) (h, d) = elim (Bool-cases (y == a)) [
    | inl same ↦ rw (same, without) (IsDistinct-without a ys d)
    | inr other ↦
        rw (other, without) (ground (arith, contains-without a y ys, h), IsDistinct-without a ys d)
  ]

  pub IsDistinct-difference : (s t : List A) → IsDistinct s → IsDistinct (difference s t)
  unfolding difference
  IsDistinct-difference [] t d = tt
  IsDistinct-difference (y ∷ ys) t (h, d) = elim (Bool-cases (contains t y)) [
    | inl there ↦ rw (there, difference) (IsDistinct-difference ys t d)
    | inr absent ↦
        rw (absent, difference)
          (ground (arith, contains-difference y ys t, h), IsDistinct-difference ys t d)
  ]

  pub IsDistinct-insert : (a : A) (s : List A) → IsDistinct s → IsDistinct (insert a s).0
  unfolding insert
  IsDistinct-insert a s d = elim (Bool-cases (contains s a)) [
    | inl there ↦ rw (there, insert) d
    | inr absent ↦ rw (absent, insert) (absent, d)
  ]

  pub IsDistinct-collect : (xs : List A) → IsDistinct (collect xs)
  unfolding collect
  IsDistinct-collect [] = tt
  IsDistinct-collect (x ∷ xs) = IsDistinct-insert x (collect xs) (IsDistinct-collect xs)

  -- removing a member of a set makes it smaller by one
  pub length-without :
      (a : A) (s : List A)
      → IsDistinct s
      → contains s a ≡ true
      → suc (length (without a s)) ≡ length s
  unfolding without
  length-without a [] d h = cc
  length-without a (y ∷ ys) (once, d) h = elim (Bool-cases (y == a)) [
    | inl same ↦
        rw (same, without)
          (ap (λ l. suc (length l))
            (without_absent a ys (ground (arith, same, once, e.beq_iff y a))))
    | inr other ↦ rw (other, without) (ap suc (length-without a ys d (ground (arith, other, h))))
  ]
