-- ===== src/Repo/Pack/Objects.antt =====
-- `read_objects` of repo/pack.rs: one pass over a frame gives each entry its bytes.
use elfshaker.Prelude.{
  ℕ, suc, zero, ◌+◌, ◌-◌, ◌%◌, ◌≤◌, ◌<◌, ◌≡◌, ◌≢◌, ◌⊎◌, inl, inr, refl, ap, ◌∙◌, sym, arith, true,
  false, List, [], ◌∷◌, map, length, take, drop, length-drop, leb, ltb, eqb, ok, All, AllPairs,
  All-sort, AllPairs-sort, IsSorted, sort, sort-IsSorted, Bool-cases,
}
use elfshaker.Algo.{u64_mod}
use elfshaker.PackIndex.Types.{FileEntry, ObjectMetadata}
use elfshaker.Repo.Pack.{
  ReadState, read_exact, seek, read_next, read_object, read_each, read_objects, offset_le,
}

-- the bytes of an object in a stream
abbrev pub slice : List ℕ → ObjectMetadata → List ℕ
slice stream m = take m.size (drop m.offset stream)

-- Objects are empty, or the same, or apart.
abbrev pub Compatible : FileEntry → FileEntry → Type 0
Compatible a b =
    (a.object_metadata.size ≡ 0)
    ⊎ ((b.object_metadata.size ≡ 0)
        ⊎ ((a.object_metadata ≡ b.object_metadata)
            ⊎ ((a.object_metadata.offset + a.object_metadata.size ≤ b.object_metadata.offset)
                ⊎ (b.object_metadata.offset + b.object_metadata.size ≤ a.object_metadata.offset))))

pub Compatible-symm : (a b : FileEntry) → Compatible a b → Compatible b a
Compatible-symm a b (inl h) = inr (inl h)
Compatible-symm a b (inr (inl h)) = inl h
Compatible-symm a b (inr (inr (inl h))) = inr (inr (inl (sym h)))
Compatible-symm a b (inr (inr (inr (inl h)))) = inr (inr (inr (inr h)))
Compatible-symm a b (inr (inr (inr (inr h)))) = inr (inr (inr (inl h)))

abbrev pub Inside : List ℕ → FileEntry → Type 0
Inside stream e = e.object_metadata.offset + e.object_metadata.size ≤ length stream

drop-nil {ℓ} : {A : Type ℓ} (n : ℕ) → drop {A = A} n [] ≡ []
drop-nil zero = refl
drop-nil (suc n) = refl

pub drop-drop {ℓ} : {A : Type ℓ} (m n : ℕ) (xs : List A) → drop m (drop n xs) ≡ drop (n + m) xs
drop-drop m zero xs = ap (λ k. drop k xs) (omega arith)
drop-drop m (suc n) [] = drop-nil m ∙ sym (drop-nil (suc n + m))
drop-drop m (suc n) (x ∷ xs) =
    let next : suc (n + m) ≡ suc n + m = omega arith in
    drop-drop m n xs ∙ ap (λ k. drop k (x ∷ xs)) next

module _ (stream : List ℕ) where
  -- What the reader can still do for an entry: it is empty, ahead, or in the buffer.
  abbrev Served : ReadState → FileEntry → Type 0
  Served s e =
      (e.object_metadata.size ≡ 0)
      ⊎ ((s.pos ≤ e.object_metadata.offset)
          ⊎ ((e.object_metadata.offset < s.pos) × (s.buf ≡ slice stream e.object_metadata)))

  record Ready (s : ReadState) : Type 0 where
    reader : s.reader ≡ drop s.pos stream

  abbrev after : ObjectMetadata → ReadState
  after m = record {
    reader = drop (m.offset + m.size) stream;
    pos = m.offset + m.size;
    buf = slice stream m;
  }

  read_next-slice :
      (s : ReadState) (m : ObjectMetadata)
      → Ready s
      → s.pos ≤ m.offset
      → m.offset + m.size ≤ length stream
      → length stream < u64_mod
      → read_next s m ≡ ok (slice stream m, after m)
  unfolding read_next seek read_exact
  read_next-slice s m r ahead inside fits =
      let e : drop (m.offset - s.pos) (drop s.pos stream) ≡ drop m.offset stream =
        drop-drop (m.offset - s.pos) s.pos stream ∙ ap (λ n. drop n stream) (omega arith) in
      let long : ltb (length (drop m.offset stream)) m.size ≡ false =
        ground (arith, length-drop m.offset stream) in
      let low : (m.offset + m.size) % u64_mod ≡ m.offset + m.size = omega arith in
      rw (r.reader, e, long, low, drop-drop m.size m.offset stream) refl

  Served-one :
      (e d : FileEntry)
      → offset_le e d ≡ true
      → Compatible e d
      → e.object_metadata.size ≢ 0
      → Served (after e.object_metadata) d
  Served-one e d le (inl h) pos = absurd (pos h)
  Served-one e d le (inr (inl h)) pos = inl h
  Served-one e d le (inr (inr (inl same))) pos =
      inr (inr (ground (arith, ap (λ m. m.offset) same, pos), ap (slice stream) same))
  Served-one e d le (inr (inr (inr (inl before)))) pos = inr (inl before)
  Served-one e d le (inr (inr (inr (inr behind)))) pos = inl (ground (arith, behind))

  buffered :
      (s : ReadState) (e : FileEntry)
      → e.object_metadata.size ≢ 0
      → e.object_metadata.offset < s.pos
      → Served s e
      → s.buf ≡ slice stream e.object_metadata
  buffered s e full behind (inl h) = absurd (full h)
  buffered s e full behind (inr (inl h)) = absurd (omega arith)
  buffered s e full behind (inr (inr (_, h))) = h

  Served-after :
      (e : FileEntry) (es : List FileEntry)
      → All (λ d. offset_le e d ≡ true) es
      → All (Compatible e) es
      → (e.object_metadata.size ≢ 0)
      → All (Served (after e.object_metadata)) es
  Served-after e [] le c pos = tt
  Served-after e (d ∷ es) (l, le) (c, cs) pos =
      (Served-one e d l c pos, Served-after e es le cs pos)

  read_object-slice :
      (s : ReadState) (e : FileEntry) (es : List FileEntry)
      → Ready s
      → All (λ d. offset_le e d ≡ true) es
      → All (Compatible e) es
      → Inside stream e
      → Served s e
      → All (Served s) es
      → length stream < u64_mod
      → (s' : ReadState) × (read_object s e.object_metadata
          ≡ ok (slice stream e.object_metadata, s'))
        × Ready s'
        × All (Served s') es
  unfolding read_object
  read_object-slice s e es r le c i v vs fits = elim (Bool-cases (eqb e.object_metadata.size 0)) [
    | inl empty ↦
        let none_ : 0 ≡ e.object_metadata.size = ground (arith, empty) in
        (s, rw empty (ap (λ n. ok (take n (drop e.object_metadata.offset stream), s)) none_), r, vs)
    | inr full ↦ elim (Bool-cases (leb s.pos e.object_metadata.offset)) [
      | inl ahead ↦ (
        after e.object_metadata,
        rw (full, ahead) (read_next-slice s e.object_metadata r (ground (arith, ahead)) i fits),
        record { reader = refl },
        Served-after e es le c (ground (arith, full)),
      )
      | inr behind ↦ (
        s,
        rw (full, behind)
            (ap (λ b. ok (b, s)) (buffered s e (ground (arith, full)) (ground (arith, behind)) v)),
        r,
        vs,
      )
    ]
  ]

  read_each-slices :
      (s : ReadState) (es : List FileEntry)
      → Ready s
      → IsSorted offset_le es
      → AllPairs Compatible es
      → All (Inside stream) es
      → All (Served s) es
      → length stream < u64_mod
      → read_each s es ≡ ok (map (λ e. (e, slice stream e.object_metadata)) es)
  unfolding read_each
  read_each-slices s [] r so c i v fits = refl
  read_each-slices s (e ∷ es) r (le, so) (c, cs) (i, is) (v, vs) fits =
      let (s', got, r', vs') = read_object-slice s e es r le c i v vs fits in
      rw (got, read_each-slices s' es r' so cs is vs' fits) refl

  Served-at_start :
      (es : List FileEntry) → All (Served (record { reader = stream; pos = 0; buf = [] })) es
  Served-at_start [] = tt
  Served-at_start (e ∷ es) = (inr (inl (omega arith)), Served-at_start es)

  -- Where the objects of a frame lie inside its decompressed stream, and any two of them are
  -- the same, apart or empty, one forward pass returns the entries in the order of their offsets,
  -- each with exactly its bytes of the stream. The stream is shorter than 2^64 bytes.
  pub read_objects-slices :
      (entries : List FileEntry)
      → AllPairs Compatible entries
      → All (Inside stream) entries
      → length stream < u64_mod
      → read_objects stream entries
        ≡ ok (map (λ e. (e, slice stream e.object_metadata)) (sort offset_le entries))
  unfolding read_objects
  read_objects-slices entries c i fits =
      read_each-slices (record { reader = stream; pos = 0; buf = [] }) (sort offset_le entries)
        (record { reader = refl })
        (sort-IsSorted offset_le (λ a b d h k. ground arith) (λ a b h. ground arith) entries)
        (AllPairs-sort offset_le Compatible Compatible-symm entries c)
        (All-sort offset_le (Inside stream) entries i) (Served-at_start (sort offset_le entries))
        fits
