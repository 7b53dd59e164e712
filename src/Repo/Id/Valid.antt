-- ===== src/Repo/Id/Valid.antt =====
-- What the components of a valid tag and of a valid pack name in repo/pack.rs are.
use elfshaker.Prelude.{
  ℕ, ◌≡◌, refl, ap, arith, Bool, true, false, List, [], ◌∷◌, eqb, contains, All, Bool-cases, inl,
  inr, list_eq, nat_eq, ◌==◌,
}
use elfshaker.PackPath.{slash, split}
use elfshaker.PackPath.Split.{split-cons}
use elfshaker.PackPath.Canonical.{IsName}
use elfshaker.Repo.Id.{
  Str, all_of, is_tag_char, is_bad_component, valid_components, is_valid, is_pack_char,
  all_components,
}

-- a character that no component has stands nowhere but at a slash
pub contains_of-split :
    (x : ℕ) (s : Str)
    → eqb slash x ≡ false
    → All (λ c. contains c x ≡ false) (split s)
    → contains s x ≡ false
unfolding split
contains_of-split x [] ne h = refl
contains_of-split x (b ∷ bs) ne h =
    let (c, cs, p) = split-cons bs in
    elim (Bool-cases (eqb b slash)) [
      | inl there ↦
          let (_, rest) = rw (there, split) at h in
          ground (arith, there, ne, contains_of-split x bs ne rest)
      | inr other ↦
          let (first, rest) = rw (other, p, split) at h in
          let ih = contains_of-split x bs ne (rw p (ground (arith, first), rest)) in
          ground (arith, first, ih)
    ]

all_of-contains :
    (test : ℕ → Bool) (x : ℕ) (s : Str)
    → test x ≡ false
    → all_of test s ≡ true
    → contains s x ≡ false
all_of-contains test x [] outside h = refl
all_of-contains test x (c ∷ s) outside h = elim (Bool-cases (eqb c x)) [
  | inl same ↦ let e : c ≡ x = ground (arith, same) in cc (outside, ap test e, h)
  | inr other ↦ rw other (all_of-contains test x s outside (ground arith))
]

module _ (is_graphic : ℕ → Bool) where
  pub record IsTagComponent (c : Str) : Type 0 where
    pub name : IsName c
    pub chars : all_of (is_tag_char is_graphic) c ≡ true

  is_bad_component-IsName :
      (is_final : Bool) (c : Str) → is_bad_component is_graphic is_final c ≡ false → IsName c
  unfolding is_bad_component
  is_bad_component-IsName is_final c h = record {
    ne_empty = λ e. ground (arith, e, h);
    ne_current = λ e. ground (arith, e, h);
    ne_parent = λ e. ground (arith, e, h);
  }

  valid_components-All :
      (cs : List Str) → valid_components is_graphic cs ≡ true → All IsTagComponent cs
  unfolding valid_components
  valid_components-All [] h = tt
  valid_components-All (c ∷ cs) h = elim (Bool-cases (is_bad_component is_graphic (cs == []) c)) [
    | inl bad ↦ cc (rw (bad, valid_components) at h)
    | inr fine ↦ elim (Bool-cases (all_of (is_tag_char is_graphic) c)) [
      | inl chars ↦ (
        record { name = is_bad_component-IsName (cs == []) c fine; chars = chars },
        valid_components-All cs (rw (fine, chars, valid_components) at h),
      )
      | inr bad ↦ cc (rw (fine, bad, valid_components) at h)
    ]
  ]

  pub is_valid-All : (tag : Str) → is_valid is_graphic tag ≡ true → All IsTagComponent (split tag)
  unfolding is_valid
  is_valid-All [] h = cc
  is_valid-All (c ∷ cs) h = valid_components-All (split (c ∷ cs)) h

  components-contains :
      (x : ℕ) (cs : List Str)
      → is_tag_char is_graphic x ≡ false
      → All IsTagComponent cs
      → All (λ c. contains c x ≡ false) cs
  components-contains x [] outside h = tt
  components-contains x (c ∷ cs) outside (h, hs) = (
    all_of-contains (is_tag_char is_graphic) x c outside h.chars,
    components-contains x cs outside hs,
  )

  pub is_valid-contains :
      (x : ℕ) (tag : Str)
      → eqb slash x ≡ false
      → is_tag_char is_graphic x ≡ false
      → is_valid is_graphic tag ≡ true
      → contains tag x ≡ false
  is_valid-contains x tag ne outside h =
      contains_of-split x tag ne (components-contains x (split tag) outside (is_valid-All tag h))

  pub is_tag_char_colon : is_tag_char is_graphic b':' ≡ false
  unfolding is_tag_char
  is_tag_char_colon = refl

-- the components of a regular pack name
pub all_components-IsName : (cs : List Str) → all_components cs ≡ true → All IsName cs
all_components-IsName [] h = tt
all_components-IsName (c ∷ cs) h = (
  record {
    ne_empty = λ e. ground (arith, e, h);
    ne_current = λ e. ground (arith, e, h);
    ne_parent = λ e. ground (arith, e, h);
  },
  all_components-IsName cs (ground arith),
)

pub all_components-contains :
    (x : ℕ) (cs : List Str)
    → is_pack_char x ≡ false
    → all_components cs ≡ true
    → All (λ c. contains c x ≡ false) cs
all_components-contains x [] outside h = tt
all_components-contains x (c ∷ cs) outside h = (
  all_of-contains is_pack_char x c outside (ground arith),
  all_components-contains x cs outside (ground arith),
)
