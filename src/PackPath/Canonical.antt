-- ===== src/PackPath/Canonical.antt =====
-- What `PackPath::new` of packpath.rs accepts.
use elfshaker.Prelude.{
  ℕ, ◌≡◌, ◌≢◌, ◌↔◌, refl, sym, ◌∙◌, arith, false, none, some, List, [], ◌∷◌, contains, nat_eq,
  list_eq, list_beq_iff, eqb, All, Bool-cases, Option-cases, inl, inr,
}
use elfshaker.PackPath.{
  slash, dot, empty, split, components, check_component, check_components, validate,
}

-- a component that names something below its directory
pub record IsName (c : List ℕ) : Type 0 where
  pub ne_empty : c ≢ []
  pub ne_current : c ≢ dot ∷ []
  pub ne_parent : c ≢ dot ∷ dot ∷ []

pub record IsCanonical (bytes : List ℕ) : Type 0 where
  pub names : All IsName (components bytes)
  pub no_nul : contains bytes 0 ≡ false

check_component-IsName : (c : List ℕ) → (check_component c ≡ none) ↔ IsName c
unfolding check_component
check_component-IsName c = (
  λ h. record {
    ne_empty = λ e. ground (arith, e, h);
    ne_current = λ e. ground (arith, e, h);
    ne_parent = λ e. ground (arith, e, h);
  },
  λ n. ground (
    arith,
    list_beq_iff c [],
    list_beq_iff c (dot ∷ []),
    list_beq_iff c (dot ∷ dot ∷ []),
    n.ne_empty,
    n.ne_current,
    n.ne_parent,
  ),
)

check_components-All : (cs : List (List ℕ)) → (check_components cs ≡ none) ↔ All IsName cs
unfolding check_components
check_components-All [] = (λ h. tt, λ h. refl)
check_components-All (c ∷ cs) = (
  λ h. elim (Option-cases (check_component c)) [
    | inl fine ↦ (
      (check_component-IsName c).0 fine,
      (check_components-All cs).0 (rw (fine, check_components) at h),
    )
    | inr (e, bad) ↦ cc (rw (bad, check_components) at h)
  ],
  λ (n, ns). rw ((check_component-IsName c).1 n, check_components) ((check_components-All cs).1 ns),
)

validate_clean :
    (b : ℕ) (bs : List ℕ)
    → eqb b slash ≡ false
    → contains (b ∷ bs) 0 ≡ false
    → validate (b ∷ bs) ≡ check_components (split (b ∷ bs))
unfolding validate
validate_clean b bs other clean = rw (other, clean) refl

-- A path is accepted exactly when each of its components is a name, not empty and other than "."
-- and "..", and it has no NUL.
pub validate-IsCanonical : (bytes : List ℕ) → (validate bytes ≡ none) ↔ IsCanonical bytes
unfolding validate split
validate-IsCanonical [] = (λ h. cc, λ v. absurd (v.names.0.ne_empty refl))
validate-IsCanonical (b ∷ bs) = elim (Bool-cases (eqb b slash)) [
  | inl there ↦
      (λ h. cc (rw there at h), λ v. absurd ((rw (there, split) at v.names).0.ne_empty refl))
  | inr other ↦ elim (Bool-cases (contains (b ∷ bs) 0)) [
    | inl nul ↦ (λ h. cc (rw (other, nul) at h), λ v. cc (nul, v.no_nul))
    | inr clean ↦
        let e = validate_clean b bs other clean in
        let spec = check_components-All (split (b ∷ bs)) in
        (λ h. record { names = spec.0 (sym e ∙ h); no_nul = clean }, λ v. e ∙ spec.1 v.names)
  ]
]

pub validate_nil : validate [] ≡ some empty
unfolding validate
validate_nil = refl
