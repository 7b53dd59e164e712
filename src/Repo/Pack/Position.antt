-- ===== src/Repo/Pack/Position.antt =====
-- The frame that `assign_to_frames` of repo/pack.rs finds for an offset.
use elfshaker.Prelude.{
  ℕ, suc, zero, ◌+◌, ◌-◌, ◌%◌, ◌≤◌, ◌<◌, ◌≡◌, ◌⊎◌, inl, inr, refl, ap, ◌∙◌, sym, arith, none, some,
  List, [], ◌∷◌, ◌++◌, map, concat, length, length-append, get_elem?, take, drop, Option-cases,
}
use elfshaker.Algo.{u64_mod}
use elfshaker.PackIndex.Types.{ObjectMetadata}
use elfshaker.Repo.Pack.{running_offsets, rposition_le}

take-drop-append {ℓ} :
    {A : Type ℓ} (n k : ℕ) (xs ys : List A)
    → k + n ≤ length xs
    → take n (drop k (xs ++ ys)) ≡ take n (drop k xs)
take-drop-append zero k xs ys h = refl
take-drop-append (suc n) zero [] ys h = absurd (omega arith)
take-drop-append (suc n) zero (x ∷ xs) ys h =
    ap (◌∷◌ x) (take-drop-append n zero xs ys (omega arith))
take-drop-append (suc n) (suc k) [] ys h = absurd (omega arith)
take-drop-append (suc n) (suc k) (x ∷ xs) ys h = take-drop-append (suc n) k xs ys (omega arith)

drop-length_add {ℓ} :
    {A : Type ℓ} (xs ys : List A) (n k : ℕ) → n ≡ length xs + k → drop n (xs ++ ys) ≡ drop k ys
drop-length_add [] ys n k h = ap (λ i. drop i ys) (omega arith)
drop-length_add (x ∷ xs) ys zero k h = absurd (omega arith)
drop-length_add (x ∷ xs) ys (suc n) k h = drop-length_add xs ys n k (omega arith)

-- the offsets of frames with these streams
abbrev pub offsets_of : ℕ → List (List ℕ) → List ℕ
offsets_of start streams = running_offsets start (map length streams)

offsets_of-cons :
    (start : ℕ) (s : List ℕ) (streams : List (List ℕ))
    → start + length (concat (s ∷ streams)) < u64_mod
    → offsets_of start (s ∷ streams) ≡ start ∷ offsets_of (start + length s) streams
unfolding running_offsets
offsets_of-cons start s streams fits =
    let low : (length s + start) % u64_mod ≡ start + length s =
      omega (arith, length-append s (concat streams)) in
    ap (λ n. start ∷ offsets_of n streams) low

rposition_le_cons_some :
    (o x i y : ℕ) (xs : List ℕ)
    → rposition_le o xs ≡ some (i, y)
    → rposition_le o (x ∷ xs) ≡ some (suc i, y)
unfolding rposition_le
rposition_le_cons_some o x i y xs h = rw h refl

rposition_le_cons_none :
    (o x : ℕ) (xs : List ℕ)
    → rposition_le o xs ≡ none
    → x ≤ o
    → rposition_le o (x ∷ xs) ≡ some (0, x)
unfolding rposition_le
rposition_le_cons_none o x xs h le = rw h (ground arith)

rposition_le_inv :
    (o x i y : ℕ) (xs : List ℕ)
    → rposition_le o (x ∷ xs) ≡ some (i, y)
    → ((i ≡ 0) × (y ≡ x) × (x ≤ o)) ⊎ ((j : ℕ) × (i ≡ suc j) × (rposition_le o xs ≡ some (j, y)))
unfolding rposition_le
rposition_le_inv o x i y xs h = elim (Option-cases (rposition_le o xs)) [
  | inl missing ↦
      let q = rw (missing, rposition_le) at h in
      inl (ground (arith, q), ground (arith, q), ground (arith, q))
  | inr ((j, z), p) ↦
      let q = rw (p, rposition_le) at h in inr (j, ground (arith, q), p ∙ ground (arith, q))
]

-- what is Found_lem is a frame that starts at the offset or before
rposition_le-offsets_of :
    (o start i y : ℕ) (streams : List (List ℕ))
    → start + length (concat streams) < u64_mod
    → rposition_le o (offsets_of start streams) ≡ some (i, y)
    → (s : List ℕ) × (get_elem? streams i ≡ some s) × (start ≤ y) × (y ≤ o)
unfolding running_offsets rposition_le
rposition_le-offsets_of o start i y [] fits h = cc
rposition_le-offsets_of o start i y (s ∷ streams) fits h =
    elim (rposition_le_inv o start i y (offsets_of (start + length s) streams)
      (ap (rposition_le o) (sym (offsets_of-cons start s streams fits)) ∙ h)) [
        | inl (first, same, le) ↦ (s, rw first refl, omega arith, omega arith)
        | inr (j, later, p) ↦
            let (t, at, lo, hi) =
              rposition_le-offsets_of o (start + length s) j y streams
                (omega (arith, length-append s (concat streams))) p in
            (t, rw later at, omega arith, hi)
      ]

-- where `rposition` puts an object, and that its bytes are there
pub record Found (start : ℕ) (streams : List (List ℕ)) (m : ObjectMetadata) : Type 0 where
  pub index : ℕ
  pub offset : ℕ
  pub stream : List ℕ
  pub position : rposition_le m.offset (offsets_of start streams) ≡ some (index, offset)
  pub frame : get_elem? streams index ≡ some stream
  pub starts : offset ≤ m.offset
  pub ends : (m.offset - offset) + m.size ≤ length stream
  pub bytes :
      take m.size (drop (m.offset - offset) stream)
      ≡ take m.size (drop (m.offset - start) (concat streams))

Found-first :
    (start : ℕ) (s : List ℕ) (behind : List (List ℕ)) (m : ObjectMetadata)
    → start + length (concat (s ∷ behind)) < u64_mod
    → start ≤ m.offset
    → m.offset + m.size ≤ start + length s
    → Found start (s ∷ behind) m
Found-first start s behind m fits lo hi =
    let cons = offsets_of-cons start s behind fits in
    elim (Option-cases (rposition_le m.offset (offsets_of (start + length s) behind))) [
      | inl missing ↦ record {
        index = 0;
        offset = start;
        stream = s;
        position = rw cons (rposition_le_cons_none m.offset start _ missing lo);
        frame = refl;
        starts = lo;
        ends = omega arith;
        bytes = sym (take-drop-append m.size (m.offset - start) s (concat behind) (omega arith));
      }
      | inr ((j, y), p) ↦
          let (t, at, low, high) =
            rposition_le-offsets_of m.offset (start + length s) j y behind
              (omega (arith, length-append s (concat behind))) p in
          let empty : m.size ≡ 0 = omega arith in
          record {
            index = suc j;
            offset = y;
            stream = t;
            position = rw cons (rposition_le_cons_some m.offset start j y _ p);
            frame = at;
            starts = high;
            ends = omega arith;
            bytes = rw empty refl;
          }
    ]

pub Found_lem :
    (start : ℕ) (before : List (List ℕ)) (s : List ℕ) (behind : List (List ℕ)) (m : ObjectMetadata)
    → start + length (concat (before ++ s ∷ behind)) < u64_mod
    → start + length (concat before) ≤ m.offset
    → m.offset + m.size ≤ start + length (concat before) + length s
    → Found start (before ++ s ∷ behind) m
Found_lem start [] s behind m fits lo hi =
    Found-first start s behind m fits (omega arith) (omega arith)
Found_lem start (b ∷ before) s behind m fits lo hi =
    let rest = before ++ s ∷ behind in
    let ih =
      Found_lem (start + length b) before s behind m (omega (arith, length-append b (concat rest)))
        (omega (arith, length-append b (concat before)))
        (omega (arith, length-append b (concat before))) in
    record {
      index = suc ih.index;
      offset = ih.offset;
      stream = ih.stream;
      position =
          rw (offsets_of-cons start b rest fits)
            (rposition_le_cons_some m.offset start ih.index ih.offset _ ih.position);
      frame = ih.frame;
      starts = ih.starts;
      ends = ih.ends;
      bytes =
          ih.bytes
          ∙ ap (take m.size) (
              sym (
                drop-length_add b (concat rest) (m.offset - start) (m.offset - (start + length b))
                  (omega (arith, length-append b (concat before)))));
    }
