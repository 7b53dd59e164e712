-- ===== src/Esi/Commit/Links.antt =====
-- Symbolic links in `commit_documents` of esi.rs: what reading gives where a rollback has put a file
-- in the place of a link.
use elfshaker.Prelude.{
  ℕ, zero, suc, ◌≡◌, ◌⊎◌, refl, sym, ◌∙◌, Bool, true, false, Option, none, some, ok, Bool-cases,
  Option-cases, Result-cases, inl, inr,
}
use elfshaker.Esi.Commit.{
  FilePath, ExistingFile, Entry, regular, link, World, Io, as_entry, follow, max_links,
  read_existing,
}
use elfshaker.Esi.Commit.Prepare.{restored}

abbrev pub is_link : Option Entry → Bool
is_link none = false
is_link (some (regular f)) = false
is_link (some (link y)) = true

entry-cases :
    (e : Option Entry)
    → ((r : Option ExistingFile) × (e ≡ as_entry r)) ⊎ ((y : FilePath) × (e ≡ some (link y)))
entry-cases none = inl (none, refl)
entry-cases (some (regular f)) = inl (some f, refl)
entry-cases (some (link y)) = inr (y, refl)

follow-as_entry :
    (n : ℕ) (entries : FilePath → Option Entry) (x : FilePath) (r : Option ExistingFile)
    → entries x ≡ as_entry r
    → follow n entries x ≡ ok r
unfolding follow
follow-as_entry zero entries x none h = rw (h, follow) refl
follow-as_entry zero entries x (some f) h = rw (h, follow) refl
follow-as_entry (suc n) entries x none h = rw (h, follow) refl
follow-as_entry (suc n) entries x (some f) h = rw (h, follow) refl

follow-zero :
    (entries : FilePath → Option Entry) (x y : FilePath) (r : Option ExistingFile)
    → entries x ≡ some (link y)
    → ¬ (follow zero entries x ≡ ok r)
unfolding follow
follow-zero entries x y r h k = cc (rw (h, follow) at k)

follow-suc :
    (n : ℕ) (entries : FilePath → Option Entry) (x y : FilePath)
    → entries x ≡ some (link y)
    → follow (suc n) entries x ≡ follow n entries y
unfolding follow
follow-suc n entries x y h = rw (h, follow) refl

-- however many links may be followed, the file that is reached is the same
follow_unique :
    (n m : ℕ) (entries : FilePath → Option Entry) (x : FilePath) (r t : Option ExistingFile)
    → follow n entries x ≡ ok r
    → follow m entries x ≡ ok t
    → r ≡ t
follow_unique zero m entries x r t h k = elim (entry-cases (entries x)) [
  | inl (p, e) ↦ cc (follow-as_entry 0 entries x p e, follow-as_entry m entries x p e)
  | inr (y, e) ↦ absurd (follow-zero entries x y r e h)
]
follow_unique (suc n) zero entries x r t h k = elim (entry-cases (entries x)) [
  | inl (p, e) ↦ cc (follow-as_entry (suc n) entries x p e, follow-as_entry 0 entries x p e)
  | inr (y, e) ↦ absurd (follow-zero entries x y t e k)
]
follow_unique (suc n) (suc m) entries x r t h k = elim (entry-cases (entries x)) [
  | inl (p, e) ↦ cc (follow-as_entry (suc n) entries x p e, follow-as_entry (suc m) entries x p e)
  | inr (y, e) ↦
      follow_unique n m entries y r t (sym (follow-suc n entries x y e) ∙ h)
        (sym (follow-suc m entries x y e) ∙ k)
]

-- In the place of a link stands what it led to, a file or nothing.
pub record Flattened (before after : FilePath → Option Entry) (x : FilePath) : Type 0 where
  pub linked : is_link (before x) ≡ true
  pub found : Option ExistingFile
  pub leads : follow max_links before x ≡ ok found
  pub left : after x ≡ as_entry found

abbrev pub Preserves : (FilePath → Option Entry) → (FilePath → Option Entry) → Type 0
Preserves before after = (x : FilePath) → (after x ≡ before x) ⊎ Flattened before after x

follow-Flattened :
    (n : ℕ) (before after : FilePath → Option Entry) (x : FilePath) (r : Option ExistingFile)
    → Flattened before after x
    → follow n before x ≡ ok r
    → follow n after x ≡ ok r
follow-Flattened n before after x r flat h =
    let same = follow_unique n max_links before x r flat.found h flat.leads in
    follow-as_entry n after x r (rw same flat.left)

pub restored-Flattened :
    (before after : FilePath → Option Entry) (x : FilePath)
    → after x ≡ restored before x
    → (after x ≡ before x) ⊎ Flattened before after x
unfolding restored
restored-Flattened before after x h = elim (Result-cases (follow max_links before x)) [
  | inl (e, bad) ↦ inl (rw (bad, restored) at h)
  | inr (r, leads) ↦
      let left : after x ≡ as_entry r = rw (leads, restored) at h in
      elim (Bool-cases (is_link (before x))) [
        | inl linked ↦ inr (record { linked = linked; found = r; leads = leads; left = left })
        | inr plain ↦ elim (entry-cases (before x)) [
          | inl (p, e) ↦
              let same : p ≡ r = cc (follow-as_entry max_links before x p e) in
              inl (left ∙ sym (rw same at e))
          | inr (y, e) ↦ cc (rw e at plain)
        ]
      ]
]

follow-Preserves :
    (n : ℕ) (before after : FilePath → Option Entry) (x : FilePath) (r : Option ExistingFile)
    → Preserves before after
    → follow n before x ≡ ok r
    → follow n after x ≡ ok r
follow-Preserves zero before after x r kept h = elim (kept x) [
  | inr flat ↦ follow-Flattened 0 before after x r flat h
  | inl unchanged ↦ elim (entry-cases (before x)) [
    | inl (p, e) ↦
        follow-as_entry 0 after x p (unchanged ∙ e) ∙ sym (follow-as_entry 0 before x p e) ∙ h
    | inr (y, e) ↦ absurd (follow-zero before x y r e h)
  ]
]
follow-Preserves (suc n) before after x r kept h = elim (kept x) [
  | inr flat ↦ follow-Flattened (suc n) before after x r flat h
  | inl unchanged ↦ elim (entry-cases (before x)) [
    | inl (p, e) ↦
        follow-as_entry (suc n) after x p (unchanged ∙ e)
        ∙ sym (follow-as_entry (suc n) before x p e)
        ∙ h
    | inr (y, e) ↦
        follow-suc n after x y (unchanged ∙ e)
        ∙ follow-Preserves n before after y r kept (sym (follow-suc n before x y e) ∙ h)
  ]
]

pub read_existing-Preserves :
    (io : Io) (w w' : World) (path : FilePath) (r : Option ExistingFile)
    → Preserves w.entries w'.entries
    → read_existing io w path ≡ ok r
    → read_existing io w' path ≡ ok r
unfolding read_existing
read_existing-Preserves io w w' path r kept h = elim (Option-cases (io.read_fault path)) [
  | inr (e, stop) ↦ cc (rw (stop, read_existing) at h)
  | inl clear ↦
      rw (clear, read_existing)
        (follow-Preserves max_links w.entries w'.entries (io.place path) r kept
          (rw (clear, read_existing) at h))
]
