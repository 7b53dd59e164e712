-- ===== src/Repo/Id/Parse.antt =====
-- Snapshot and pack identifiers of repo/pack.rs, printed and parsed.
use elfshaker.Prelude.{
  ℕ, ◌≡◌, refl, ap, sym, ◌∙◌, arith, Bool, true, false, none, some, [], ◌∷◌, ◌++◌, ok, contains,
  Bool-cases, Option-cases, Result-cases, inl, inr, list_eq, nat_eq, ◌==◌,
}
use elfshaker.Repo.Id.{
  Str, PackId, pack, SnapshotId, colon, name_of, print, is_valid, is_valid_regular, validate,
  pack_from_str, new, rsplit_once_colon, from_str,
}
use elfshaker.Repo.Id.Valid.{is_valid-contains, is_tag_char_colon}

rsplit_once_colon-none : (s : Str) → contains s colon ≡ false → rsplit_once_colon s ≡ none
unfolding rsplit_once_colon
rsplit_once_colon-none [] h = refl
rsplit_once_colon-none (c ∷ s) h =
    rw (rsplit_once_colon-none s (ground arith), rsplit_once_colon) (ground arith)

rsplit_once_colon-append :
    (p t : Str) → contains t colon ≡ false → rsplit_once_colon (p ++ colon ∷ t) ≡ some (p, t)
unfolding rsplit_once_colon
rsplit_once_colon-append [] t h = rw (rsplit_once_colon-none t h, rsplit_once_colon) refl
rsplit_once_colon-append (c ∷ p) t h = rw (rsplit_once_colon-append p t h, rsplit_once_colon) refl

rsplit_once_colon_inv : (s p t : Str) → rsplit_once_colon s ≡ some (p, t) → s ≡ p ++ colon ∷ t
unfolding rsplit_once_colon
rsplit_once_colon_inv [] p t h = cc
rsplit_once_colon_inv (c ∷ s) p t h = elim (Option-cases (rsplit_once_colon s)) [
  | inl missing ↦ let q = rw (missing, rsplit_once_colon) at h in ground (arith, q)
  | inr ((a, b), there) ↦
      let q = rw (there, rsplit_once_colon) at h in
      let ih = rsplit_once_colon_inv s a b there in ground (arith, q, ih)
]

print-known :
    (id : SnapshotId)
    → contains id.tag colon ≡ false
    → rsplit_once_colon (print id) ≡ some (name_of id.pack, id.tag)
unfolding print
print-known id h = rsplit_once_colon-append (name_of id.pack) id.tag h

module _ (is_graphic : ℕ → Bool) where
  pack_from_str_lem :
      (s : Str) → validate is_graphic (pack s) ≡ none → pack_from_str is_graphic s ≡ ok (pack s)
  unfolding pack_from_str
  pack_from_str_lem s h = rw (h, pack_from_str) refl

  pack_from_str_inv :
      (s : Str) (q : PackId)
      → pack_from_str is_graphic s ≡ ok q
      → (q ≡ pack s) × (validate is_graphic (pack s) ≡ none)
  unfolding pack_from_str
  pack_from_str_inv s q h = elim (Option-cases (validate is_graphic (pack s))) [
    | inl fine ↦ let e = rw (fine, pack_from_str) at h in (ground (arith, e), fine)
    | inr (e, bad) ↦ cc (rw (bad, pack_from_str) at h)
  ]

  name_of-ne-nil : (q : PackId) → validate is_graphic q ≡ none → (name_of q == []) ≡ false
  unfolding validate is_valid_regular
  name_of-ne-nil (pack []) h = cc
  name_of-ne-nil (pack (c ∷ s)) h = refl

  pack_from_str-name_of :
      (q : PackId) → validate is_graphic q ≡ none → pack_from_str is_graphic (name_of q) ≡ ok q
  pack_from_str-name_of (pack s) h = pack_from_str_lem s h

  new_lem :
      (q : PackId) (tag : Str)
      → is_valid is_graphic tag ≡ true
      → new is_graphic q tag ≡ ok (record { pack = q; tag = tag })
  unfolding new
  new_lem q tag h = rw h refl

  -- An identifier whose pack and tag are valid is printed and parsed back.
  pub from_str-print :
      (id : SnapshotId)
      → validate is_graphic id.pack ≡ none
      → is_valid is_graphic id.tag ≡ true
      → from_str is_graphic (print id) ≡ ok id
  unfolding from_str
  from_str-print id v t =
      let plain =
        is_valid-contains is_graphic colon id.tag (ground arith) (is_tag_char_colon is_graphic) t in
      rw (print-known id plain, name_of-ne-nil id.pack v, pack_from_str-name_of id.pack v, from_str)
        (new_lem id.pack id.tag t)

  new_inv :
      (q : PackId) (tag : Str) (id : SnapshotId)
      → new is_graphic q tag ≡ ok id
      → (id ≡ record { pack = q; tag = tag }) × (is_valid is_graphic tag ≡ true)
  unfolding new
  new_inv q tag id h = elim (Bool-cases (is_valid is_graphic tag)) [
    | inl fine ↦ let e = rw (fine, new) at h in (ground (arith, e), fine)
    | inr bad ↦ cc (rw (bad, new) at h)
  ]

  -- Whatever parses is printed as it was written, and its pack and its tag are valid.
  pub print-from_str :
      (s : Str) (id : SnapshotId)
      → from_str is_graphic s ≡ ok id
      → (print id ≡ s) × (validate is_graphic id.pack ≡ none) × (is_valid is_graphic id.tag ≡ true)
  unfolding from_str print
  print-from_str s id h = elim (Option-cases (rsplit_once_colon s)) [
    | inl missing ↦ cc (rw (missing, from_str) at h)
    | inr ((p, t), cut) ↦ elim (Bool-cases (p == [])) [
      | inl empty ↦ cc (rw (cut, empty, from_str) at h)
      | inr full ↦ elim (Result-cases (pack_from_str is_graphic p)) [
        | inl (e, bad) ↦ cc (rw (cut, full, bad, from_str) at h)
        | inr (q, parsed) ↦
            let (whole, tag) = new_inv q t id (rw (cut, full, parsed, from_str) at h) in
            let (named, valid) = pack_from_str_inv p q parsed in
            let q' : id.pack ≡ pack p = ap (λ x. x.pack) whole ∙ named in
            let t' : id.tag ≡ t = ap (λ x. x.tag) whole in
            (
              ap (λ x. name_of x ++ colon ∷ id.tag) q'
                  ∙ ap (λ x. p ++ colon ∷ x) t'
                  ∙ sym (rsplit_once_colon_inv s p t cut),
              rw q' valid,
              rw t' tag,
            )
      ]
    ]
  ]
