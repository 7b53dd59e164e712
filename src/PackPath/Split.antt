-- ===== src/PackPath/Split.antt =====
-- Splitting at slashes and joining with them.
use elfshaker.Prelude.{
  ℕ, ◌≡◌, refl, ap, ◌∙◌, arith, false, List, [], ◌∷◌, ◌++◌, contains, nat_eq, eqb, All, Bool-cases,
  inl, inr,
}
use elfshaker.PackPath.{slash, cons_first, split}

unfoldable pub join : List (List ℕ) → List ℕ
join [] = []
join (c ∷ []) = c
join (c ∷ d ∷ cs) = c ++ slash ∷ join (d ∷ cs)

-- a component that `split` can give
abbrev pub IsPart : List ℕ → Type 0
IsPart c = contains c slash ≡ false

pub split-cons : (bs : List ℕ) → (c : List ℕ) × (cs : List (List ℕ)) × (split bs ≡ c ∷ cs)
unfolding split
split-cons [] = ([], [], refl)
split-cons (b ∷ bs) = elim (Bool-cases (eqb b slash)) [
  | inl there ↦ ([], split bs, rw there)
  | inr other ↦ let (c, cs, p) = split-cons bs in (b ∷ c, cs, rw (other, p))
]

join-cons_first :
    (b : ℕ) (c : List ℕ) (cs : List (List ℕ)) → join (cons_first b (c ∷ cs)) ≡ b ∷ join (c ∷ cs)
unfolding join
join-cons_first b c [] = refl
join-cons_first b c (d ∷ cs) = refl

join-nil_cons : (c : List ℕ) (cs : List (List ℕ)) → join ([] ∷ c ∷ cs) ≡ slash ∷ join (c ∷ cs)
unfolding join
join-nil_cons c cs = refl

-- Joining what `split` gave restores the bytes.
pub join-split : (bs : List ℕ) → join (split bs) ≡ bs
unfolding split
join-split [] = unfold join in refl
join-split (b ∷ bs) =
    let (c, cs, p) = split-cons bs in
    let ih : join (c ∷ cs) ≡ bs = rw p at (join-split bs) in
    elim (Bool-cases (eqb b slash)) [
      | inl there ↦ rw (there, p, split) (join-nil_cons c cs ∙ ground (arith, ih))
      | inr other ↦ rw (other, p, split) (join-cons_first b c cs ∙ ap (◌∷◌ b) ih)
    ]

pub All-IsPart-split : (bs : List ℕ) → All IsPart (split bs)
unfolding split
All-IsPart-split [] = (refl, tt)
All-IsPart-split (b ∷ bs) =
    let (c, cs, p) = split-cons bs in
    let ih : All IsPart (c ∷ cs) = rw p at (All-IsPart-split bs) in
    elim (Bool-cases (eqb b slash)) [
      | inl there ↦ rw (there, p, split) (refl, ih)
      | inr other ↦ rw (other, p, split) (ground (arith, other, ih.0), ih.1)
    ]

pub split-append_slash : (c bs : List ℕ) → IsPart c → split (c ++ slash ∷ bs) ≡ c ∷ split bs
unfolding split
split-append_slash [] bs h = refl
split-append_slash (b ∷ c) bs h =
    let other : eqb b slash ≡ false = ground arith in
    rw (other, split-append_slash c bs (ground arith)) refl

pub split-IsPart : (c : List ℕ) → IsPart c → split c ≡ c ∷ []
unfolding split
split-IsPart [] h = refl
split-IsPart (b ∷ c) h =
    let other : eqb b slash ≡ false = ground arith in rw (other, split-IsPart c (ground arith)) refl

-- Splitting what was joined gives the components back.
pub split-join :
    (c : List ℕ) (cs : List (List ℕ)) → All IsPart (c ∷ cs) → split (join (c ∷ cs)) ≡ c ∷ cs
unfolding join
split-join c [] (h, _) = split-IsPart c h
split-join c (d ∷ cs) (h, hs) =
    split-append_slash c (join (d ∷ cs)) h ∙ ap (◌∷◌ c) (split-join d cs hs)
