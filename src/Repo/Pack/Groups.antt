-- ===== src/Repo/Pack/Groups.antt =====
-- `assign_to_frames` of repo/pack.rs: the group of each frame.
use elfshaker.Prelude.{
  ℕ, suc, zero, ◌+◌, ◌<◌, ◌≡◌, inl, inr, refl, ap, ◌∙◌, sym, arith, true, none, some, List, [], ◌∷◌,
  ◌++◌, concat, length, length-append, append-nil, append_assoc, get_elem?, eqb, if◌then◌else◌, ok,
  All, Bool-cases, Option-cases,
}
use elfshaker.PackIndex.Types.{FileEntry}
use elfshaker.Repo.Pack.{empty_groups, PackFrame, rposition_le, local_entry, push_at, assign_all}

-- the entries of the frame `i`, in the order of the list
pub group_at : List ℕ → ℕ → List FileEntry → List FileEntry
group_at offsets i [] = []
group_at offsets i (e ∷ es) =
    let rest = group_at offsets i es in
    elim (rposition_le e.object_metadata.offset offsets) [
      | none ↦ rest
      | some (j, frame_offset) ↦ if eqb i j then local_entry frame_offset e ∷ rest else rest
    ]

get_elem?-push_at {ℓ} :
    {A : Type ℓ} (i j : ℕ) (a : A) (xss : List (List A)) (xs : List A)
    → get_elem? xss i ≡ some xs
    → get_elem? (push_at j a xss) i ≡ some (if eqb i j then xs ++ a ∷ [] else xs)
unfolding push_at
get_elem?-push_at i j a [] xs h = cc
get_elem?-push_at zero zero a (x ∷ xss) xs h = ground (arith, h)
get_elem?-push_at zero (suc j) a (x ∷ xss) xs h = ground (arith, h)
get_elem?-push_at (suc i) zero a (x ∷ xss) xs h = ground (arith, h)
get_elem?-push_at (suc i) (suc j) a (x ∷ xss) xs h = get_elem?-push_at i j a xss xs h ∙ ground arith

-- the offset is behind the start of the first frame
abbrev pub Located : List ℕ → ℕ → FileEntry → Type 0
Located offsets n e =
    (i : ℕ) × (o : ℕ) × (rposition_le e.object_metadata.offset offsets ≡ some (i, o)) × (i < n)

length-push_at {ℓ} :
    {A : Type ℓ} (i : ℕ) (a : A) (xss : List (List A)) → length (push_at i a xss) ≡ length xss
unfolding push_at
length-push_at i a [] = refl
length-push_at zero a (xs ∷ xss) = refl
length-push_at (suc i) a (xs ∷ xss) = ap suc (length-push_at i a xss)

length-concat-push_at {ℓ} :
    {A : Type ℓ} (i : ℕ) (a : A) (xss : List (List A))
    → i < length xss
    → length (concat (push_at i a xss)) ≡ suc (length (concat xss))
unfolding push_at
length-concat-push_at i a [] h = absurd (omega arith)
length-concat-push_at zero a (xs ∷ xss) h = omega (
  arith,
  length-append (xs ++ a ∷ []) (concat xss),
  length-append xs (a ∷ []),
  length-append xs (concat xss),
)
length-concat-push_at (suc i) a (xs ∷ xss) h = omega (
  arith,
  length-append xs (concat xss),
  length-append xs (concat (push_at i a xss)),
  length-concat-push_at i a xss (omega arith),
)

pub assign_all-group_at :
    (offsets : List ℕ) (frames : List (List FileEntry)) (es : List FileEntry)
    → All (Located offsets (length frames)) es
    → (groups : List (List FileEntry)) × (assign_all offsets frames es ≡ ok groups)
      × ((i : ℕ) (g : List FileEntry)
          → get_elem? frames i ≡ some g
          → get_elem? groups i ≡ some (g ++ group_at offsets i es))
      × (length (concat groups) ≡ length (concat frames) + length es)
unfolding assign_all group_at
assign_all-group_at offsets frames [] l =
    (frames, refl, λ i g h. h ∙ ap some (sym (append-nil g)), omega arith)
assign_all-group_at offsets frames (e ∷ es) ((j, o, p, low), l) =
    let frames' = push_at j (local_entry o e) frames in
    let same : length frames ≡ length frames' = sym (length-push_at j (local_entry o e) frames) in
    let (groups, eq, at, count) = assign_all-group_at offsets frames' es (rw same at l) in
    (
      groups,
      rw (p, assign_all) eq,
      λ i g h.
          rw (p, group_at)
            (at i _ (get_elem?-push_at i j (local_entry o e) frames g h)
              ∙ elim (Bool-cases (eqb i j)) [
                | inl here ↦
                    rw here
                      (ap some (append_assoc g (local_entry o e ∷ []) (group_at offsets i es)))
                | inr other ↦ rw other refl
              ]),
      omega (arith, count, length-concat-push_at j (local_entry o e) frames low),
    )

pub get_elem?-group_at :
    (offsets : List ℕ) (i o k : ℕ) (es : List FileEntry) (e : FileEntry)
    → get_elem? es k ≡ some e
    → rposition_le e.object_metadata.offset offsets ≡ some (i, o)
    → (n : ℕ) × (get_elem? (group_at offsets i es) n ≡ some (local_entry o e))
unfolding group_at
get_elem?-group_at offsets i o k [] e h p = cc
get_elem?-group_at offsets i o zero (d ∷ es) e h p =
    let same : d ≡ e = ground (arith, h) in
    let here : eqb i i ≡ true = ground arith in
    let p' : rposition_le d.object_metadata.offset offsets ≡ some (i, o) = rw same p in
    (0, rw (p', here, group_at) (ap (λ x. some (local_entry o x)) same))
get_elem?-group_at offsets i o (suc k) (d ∷ es) e h p =
    let (n, at) = get_elem?-group_at offsets i o k es e h p in
    elim (Option-cases (rposition_le d.object_metadata.offset offsets)) [
      | inl missing ↦ (n, rw (missing, group_at) at)
      | inr ((j, y), q) ↦ elim (Bool-cases (eqb i j)) [
        | inl here ↦ (suc n, rw (q, here, group_at) at)
        | inr other ↦ (n, rw (q, other, group_at) at)
      ]
    ]

pub get_elem?-lt_length {ℓ} :
    {A : Type ℓ} (xs : List A) (i : ℕ) (a : A) → get_elem? xs i ≡ some a → i < length xs
get_elem?-lt_length [] i a h = cc
get_elem?-lt_length (x ∷ xs) zero a h = omega arith
get_elem?-lt_length (x ∷ xs) (suc i) a h = omega (arith, get_elem?-lt_length xs i a h)

pub get_elem?-empty_groups :
    (frames : List PackFrame) (i : ℕ)
    → i < length frames
    → get_elem? (empty_groups frames) i ≡ some []
get_elem?-empty_groups [] i h = absurd (omega arith)
get_elem?-empty_groups (f ∷ frames) zero h = refl
get_elem?-empty_groups (f ∷ frames) (suc i) h = get_elem?-empty_groups frames i (omega arith)

pub length-empty_groups : (frames : List PackFrame) → length (empty_groups frames) ≡ length frames
length-empty_groups [] = refl
length-empty_groups (f ∷ frames) = ap suc (length-empty_groups frames)

pub concat-empty_groups : (frames : List PackFrame) → concat (empty_groups frames) ≡ []
concat-empty_groups [] = refl
concat-empty_groups (f ∷ frames) = concat-empty_groups frames
