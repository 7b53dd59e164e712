-- ===== src/Repo/Remote/Endpoint.antt =====
-- The endpoints of repo/remote.rs: the URL that is asked for the second version first.
use elfshaker.Prelude.{
  ℕ, ◌≡◌, refl, sym, ◌∙◌, ap, true, false, some, List, [], ◌∷◌, ◌++◌, append_assoc, contains, eqb,
  Bool-cases, inl, inr, list_eq, nat_eq,
}
use elfshaker.PackPath.{slash, dot, split, cons_first}
use elfshaker.PackPath.Split.{split-cons, split-IsPart}
use elfshaker.Esi.{Str, v2}
use elfshaker.Repo.Id.Safety.{strip_suffix-append}
use elfshaker.Repo.Remote.{
  Url, Net, dot_esi, dot_v, dot_v2_esi, rsplit_once, last, version_of, is_versioned_endpoint,
  endpoint_version, v2_sibling_url,
}

abbrev dot_v2 : Str
dot_v2 = dot ∷ b'v' ∷ b'2' ∷ []

rsplit_once-v2 : (s : Str) → rsplit_once dot_v (s ++ dot_v2) ≡ some (s, b'2' ∷ [])
unfolding rsplit_once
rsplit_once-v2 [] = refl
rsplit_once-v2 (c ∷ s) = rw (rsplit_once-v2 s) refl

last-cons_first :
    (c : ℕ) (ss : List Str) (front t : Str)
    → last ss ≡ some (front ++ t)
    → (front' : Str) × (last (cons_first c ss) ≡ some (front' ++ t))
last-cons_first c [] front t h = cc
last-cons_first c (d ∷ []) front t h =
    let e : d ≡ front ++ t = cc in (c ∷ front, ap (λ s. some (c ∷ s)) e)
last-cons_first c (d ∷ e ∷ es) front t h = (front, h)

-- text without a '/' is put at the end of the last segment
last-split-append :
    (s t : Str)
    → contains t slash ≡ false
    → (front : Str) × (last (split (s ++ t)) ≡ some (front ++ t))
unfolding split
last-split-append [] t h = ([], rw (split-IsPart t h) refl)
last-split-append (c ∷ s) t h =
    let (front, e) = last-split-append s t h in
    let (d, ds, p) = split-cons (s ++ t) in
    elim (Bool-cases (eqb c slash)) [
      | inl there ↦ (front, rw (there, split) (rw p (rw p at e)))
      | inr other ↦
          let (front', e') = last-cons_first c (split (s ++ t)) front t e in
          (front', rw (other, split) e')
    ]

-- What the documentation of the url crate says of a URL with an authority: the segments of the path
-- that was set are those between its slashes.
pub record SetsPath (n : Net) (url : Url) (stem : Str) : Type 0 where
  pub segments :
      n.path_segments (n.set_path url (stem ++ dot_v2_esi)) ≡ some (split (stem ++ dot_v2_esi))

-- The sibling that is asked first is a versioned endpoint, of the second version.
pub v2_sibling_url-endpoint_version :
    (n : Net) (url sibling : Url) (stem : Str)
    → n.url_path url ≡ stem ++ dot_esi
    → SetsPath n url stem
    → v2_sibling_url n url ≡ some sibling
    → (is_versioned_endpoint n sibling ≡ true) × (endpoint_version n sibling ≡ some v2)
unfolding v2_sibling_url is_versioned_endpoint endpoint_version
v2_sibling_url-endpoint_version n url sibling stem path sets h =
    elim (Bool-cases (is_versioned_endpoint n url)) [
      | inl versioned ↦ cc (rw (versioned, v2_sibling_url) at h)
      | inr plain ↦
          let e : n.set_path url (stem ++ dot_v2_esi) ≡ sibling =
            cc (rw (plain, path, strip_suffix-append dot_esi stem, v2_sibling_url) at h) in
          let (front, l) = last-split-append stem dot_v2_esi refl in
          let name : last (split (stem ++ dot_v2_esi)) ≡ some ((front ++ dot_v2) ++ dot_esi) =
            l ∙ ap some (sym (append_assoc front dot_v2 dot_esi)) in
          let version : version_of n sibling ≡ some (b'2' ∷ []) = rw (← e) (
            rw
              (
                sets.segments,
                name,
                strip_suffix-append dot_esi (front ++ dot_v2),
                rsplit_once-v2 front,
              )
              refl) in
          (rw (version, is_versioned_endpoint) refl, rw (version, endpoint_version) refl)
    ]
