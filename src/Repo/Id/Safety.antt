-- ===== src/Repo/Id/Safety.antt =====
-- Valid pack names of repo/pack.rs stay below the directory that they are joined to.
use elfshaker.Prelude.{
  ℕ, ◌≡◌, refl, ap, sym, arith, Bool, true, false, none, some, List, [], ◌∷◌, ◌++◌, All, Bool-cases,
  Option-cases, ◌⊎◌, subst, inl, inr, ◌↔◌, length, length-append, ==_refl, list_beq_iff, list_eq,
  nat_eq, ◌==◌, ok,
}
use elfshaker.PackPath.{split}
use elfshaker.PackPath.Split.{split-append_slash}
use elfshaker.PackPath.Canonical.{IsName, IsCanonical}
use elfshaker.Repo.Id.{
  PackId, Str, pack, strip_prefix, strip_suffix, from_index_path, dot_pack_index_extension,
  loose_prefix, is_tag_char, is_valid, is_valid_regular, all_components, validate,
  for_loose_snapshot,
}
use elfshaker.Repo.Id.Valid.{
  contains_of-split, IsTagComponent, is_valid-All, is_valid-contains, all_components-IsName,
  all_components-contains,
}

strip_prefix-inv : (p s t : Str) → strip_prefix p s ≡ some t → s ≡ p ++ t
strip_prefix-inv [] s t h = ground (arith, h)
strip_prefix-inv (c ∷ p) [] t h = cc
strip_prefix-inv (c ∷ p) (d ∷ s) t h = ground (arith, strip_prefix-inv p s t, h)

loose_stem : Str
loose_stem = b'l' ∷ b'o' ∷ b'o' ∷ b's' ∷ b'e' ∷ []

split-loose : (tag : Str) → split (loose_prefix ++ tag) ≡ loose_stem ∷ split tag
unfolding loose_stem
split-loose tag = split-append_slash loose_stem tag (ground arith)

loose_stem-IsName : IsName loose_stem
unfolding loose_stem
loose_stem-IsName = record { ne_empty = λ e. cc; ne_current = λ e. cc; ne_parent = λ e. cc }

module _ (is_graphic : ℕ → Bool) where
  names_of : (cs : List Str) → All (IsTagComponent is_graphic) cs → All IsName cs
  names_of [] h = tt
  names_of (c ∷ cs) (h, hs) = (h.name, names_of cs hs)

  validate_inv :
      (name : Str)
      → validate is_graphic (pack name) ≡ none
      → (((tag : Str) × (name ≡ loose_prefix ++ tag) × (is_valid is_graphic tag ≡ true))
          ⊎ (is_valid_regular name ≡ true))
  unfolding validate
  validate_inv name h = elim (Option-cases (strip_prefix loose_prefix name)) [
    | inl other ↦ elim (Bool-cases (is_valid_regular name)) [
      | inl fine ↦ inr fine
      | inr bad ↦ cc (rw (other, bad, validate) at h)
    ]
    | inr (tag, loose) ↦ elim (Bool-cases (is_valid is_graphic tag)) [
      | inl fine ↦ inl (tag, strip_prefix-inv loose_prefix name tag loose, fine)
      | inr bad ↦ cc (rw (loose, bad, validate) at h)
    ]
  ]

  regular-IsCanonical : (name : Str) → is_valid_regular name ≡ true → IsCanonical name
  unfolding is_valid_regular
  regular-IsCanonical name h =
      let parts : all_components (split name) ≡ true = ground arith in
      record {
        names = all_components-IsName (split name) parts;
        no_nul =
            contains_of-split 0 name (ground arith)
              (all_components-contains 0 (split name) (ground arith) parts);
      }

  -- Where NUL is not a graphic character, the name of a pack that validates, loose or not, is a
  -- canonical path: relative, without NUL, and without empty, "." and ".." components.
  pub validate-IsCanonical_name :
      (name : Str)
      → is_graphic 0 ≡ false
      → validate is_graphic (pack name) ≡ none
      → IsCanonical name
  unfolding is_tag_char
  validate-IsCanonical_name name control h = elim (validate_inv name h) [
    | inr fine ↦ regular-IsCanonical name fine
    | inl (tag, whole, fine) ↦ subst IsCanonical (sym whole) (record {
      names =
          rw split-loose
            (loose_stem-IsName, names_of (split tag) (is_valid-All is_graphic tag fine));
      no_nul =
          ground (
            arith,
            is_valid-contains is_graphic 0 tag (ground arith) (ground (arith, control)) fine,
          );
    })
  ]

  -- A valid tag gives a loose pack, and that pack validates.
  pub for_loose_snapshot-validate :
      (tag : Str)
      → is_valid is_graphic tag ≡ true
      → (for_loose_snapshot is_graphic tag ≡ ok (pack (loose_prefix ++ tag)))
        × (validate is_graphic (pack (loose_prefix ++ tag)) ≡ none)
  unfolding for_loose_snapshot validate
  for_loose_snapshot-validate tag h = (rw h refl, rw (h, validate) refl)

  pub for_loose_snapshot_valid :
      (tag : Str) (p : PackId)
      → for_loose_snapshot is_graphic tag ≡ ok p
      → validate is_graphic p ≡ none
  unfolding for_loose_snapshot
  for_loose_snapshot_valid tag p h = elim (Bool-cases (is_valid is_graphic tag)) [
    | inl good ↦
        let (e, v) = for_loose_snapshot-validate tag good in
        let same : pack (loose_prefix ++ tag) ≡ p = cc in
        subst (λ q. validate is_graphic q ≡ none) same v
    | inr bad ↦ cc (rw bad at h)
  ]

pub strip_suffix-append : (suffix s : Str) → strip_suffix suffix (s ++ suffix) ≡ some s
unfolding strip_suffix
strip_suffix-append [] [] = refl
strip_suffix-append (x ∷ xs) [] = rw (==_refl (x ∷ xs), strip_suffix) refl
strip_suffix-append suffix (c ∷ s) = elim (Bool-cases (suffix == (c ∷ s ++ suffix))) [
  | inl same ↦
      let e : suffix ≡ c ∷ s ++ suffix = (list_beq_iff suffix (c ∷ s ++ suffix)).0 same in
      absurd (omega (arith, ap length e, length-append s suffix))
  | inr other ↦ rw (other, strip_suffix-append suffix s, strip_suffix) refl
]

pub strip_suffix-inv : (suffix s t : Str) → strip_suffix suffix s ≡ some t → s ≡ t ++ suffix
unfolding strip_suffix
strip_suffix-inv [] [] t h = ground (arith, h)
strip_suffix-inv (x ∷ xs) [] t h = cc
strip_suffix-inv suffix (c ∷ s) t h = elim (Bool-cases (suffix == (c ∷ s))) [
  | inl same ↦
      let e : suffix ≡ c ∷ s = (list_beq_iff suffix (c ∷ s)).0 same in
      let q = rw (same, strip_suffix) at h in ground (arith, e, q)
  | inr other ↦ elim (Option-cases (strip_suffix suffix s)) [
    | inl missing ↦ cc (rw (other, missing, strip_suffix) at h)
    | inr (front, there) ↦
        let q = rw (other, there, strip_suffix) at h in
        ground (arith, q, strip_suffix-inv suffix s front there)
  ]
]

-- The pack of an index file is the file's name without the extension: every name is recovered
-- from it, and a file without the extension has no pack.
pub from_index_path_iff :
    (path name : Str)
    → (from_index_path path ≡ some (pack name)) ↔ (path ≡ name ++ dot_pack_index_extension)
unfolding from_index_path
from_index_path_iff path name = (
  λ h. elim (Option-cases (strip_suffix dot_pack_index_extension path)) [
    | inl missing ↦ cc (rw (missing, from_index_path) at h)
    | inr (t, there) ↦
        let q = rw (there, from_index_path) at h in
        ground (arith, q, strip_suffix-inv dot_pack_index_extension path t there)
  ],
  λ h. rw (h, strip_suffix-append dot_pack_index_extension name, from_index_path) refl,
)
