-- ===== src/Repo/Pack/Frames.antt =====
-- `assign_to_frames` of repo/pack.rs: each entry goes to the frame that holds its object.
use elfshaker.Prelude.{
  ℕ, suc, zero, ◌+◌, ◌≤◌, ◌<◌, ◌≡◌, ap, ◌∙◌, sym, arith, some, List, [], ◌∷◌, ◌++◌, map, concat,
  length, length-map, subst, get_elem?, take, drop, ok, All,
}
use elfshaker.Algo.{u64_mod}
use elfshaker.PackIndex.Types.{FileEntry, ObjectMetadata}
use elfshaker.Repo.Pack.{
  empty_groups, PackFrame, running_offsets, decompressed_sizes, compute_frame_decompressed_offset,
  local_entry, assign_all, assign_to_frames,
}
use elfshaker.Repo.Pack.Objects.{slice, Inside}
use elfshaker.Repo.Pack.Groups.{
  Located, assign_all-group_at, group_at, get_elem?-group_at, get_elem?-lt_length,
  get_elem?-empty_groups, length-empty_groups, concat-empty_groups,
}
use elfshaker.Repo.Pack.Position.{offsets_of, Found, Found_lem}

-- the object lies in one of the frames
pub record InOneFrame (streams : List (List ℕ)) (m : ObjectMetadata) : Type 0 where
  pub before : List (List ℕ)
  pub stream : List ℕ
  pub behind : List (List ℕ)
  pub whole : streams ≡ before ++ stream ∷ behind
  pub starts : length (concat before) ≤ m.offset
  pub ends : m.offset + m.size ≤ length (concat before) + length stream

All-get_elem? {ℓ κ} :
    {A : Type ℓ} (P : A → Type κ) (xs : List A) (i : ℕ) (a : A)
    → All P xs
    → get_elem? xs i ≡ some a
    → P a
All-get_elem? P [] i a h p = cc
All-get_elem? P (x ∷ xs) zero a (h, hs) p = subst P (ground (arith, p)) h
All-get_elem? P (x ∷ xs) (suc i) a (h, hs) p = All-get_elem? P xs i a hs p

-- the entry stands in the group of a frame that holds its bytes, at an offset in that frame
pub record Delivered (streams : List (List ℕ)) (groups : List (List FileEntry)) (e : FileEntry)
    : Type 0 where
  pub index : ℕ
  pub frame_offset : ℕ
  pub stream : List ℕ
  pub group : List FileEntry
  pub place : ℕ
  pub frame : get_elem? streams index ≡ some stream
  pub grouped : get_elem? groups index ≡ some group
  pub listed : get_elem? group place ≡ some (local_entry frame_offset e)
  pub inside : Inside stream (local_entry frame_offset e)
  pub bytes :
      slice stream (local_entry frame_offset e).object_metadata
      ≡ slice (concat streams) e.object_metadata

module _ (frames : List PackFrame) (streams : List (List ℕ))
    (sizes : decompressed_sizes frames ≡ map length streams)
    (fits : length (concat streams) < u64_mod) where
  Found-in : (m : ObjectMetadata) → InOneFrame streams m → Found 0 streams m
  Found-in m h =
      subst (λ l. Found 0 l m) (sym h.whole)
        (Found_lem 0 h.before h.stream h.behind m
          (subst (λ (l : List (List ℕ)). 0 + length (concat l) < u64_mod) h.whole (omega arith))
          (omega (arith, h.starts)) (omega (arith, h.ends)))

  same_length : length (empty_groups frames) ≡ length streams
  same_length = omega (
    arith,
    length-empty_groups frames,
    length-map (λ (f : PackFrame). f.decompressed_size) frames,
    length-map (length {A = ℕ}) streams,
    ap length sizes,
  )

  All-Located :
      (es : List FileEntry)
      → All (λ e. InOneFrame streams e.object_metadata) es
      → All (Located (offsets_of 0 streams) (length (empty_groups frames))) es
  All-Located [] h = tt
  All-Located (e ∷ es) (h, hs) =
      let f = Found-in e.object_metadata h in
      (
        (
          f.index,
          f.offset,
          f.position,
          omega (arith, get_elem?-lt_length streams f.index f.stream f.frame, same_length),
        ),
        All-Located es hs,
      )

  assigned :
      (entries : List FileEntry)
      → assign_to_frames frames entries
        ≡ assign_all (offsets_of 0 streams) (empty_groups frames) entries
  unfolding assign_to_frames compute_frame_decompressed_offset
  assigned entries = ap (λ l. assign_all (running_offsets 0 l) (empty_groups frames) entries) sizes

  -- Where the header gives the sizes of the decompressed frames, fewer than 2^64 bytes, and no
  -- object is split across two of them, every entry is assigned, once, to a frame whose stream
  -- holds at the local offset the bytes that the whole stream holds at the offset of the index.
  pub assign_to_frames-Delivered :
      (entries : List FileEntry)
      → All (λ e. InOneFrame streams e.object_metadata) entries
      → (groups : List (List FileEntry)) × (assign_to_frames frames entries ≡ ok groups)
        × (length (concat groups) ≡ length entries)
        × ((k : ℕ) (e : FileEntry) → get_elem? entries k ≡ some e → Delivered streams groups e)
  unfolding local_entry
  assign_to_frames-Delivered entries h =
      let (groups, eq, at, count) =
        assign_all-group_at (offsets_of 0 streams) (empty_groups frames) entries
          (All-Located entries h) in
      (
        groups,
        assigned entries ∙ eq,
        omega (arith, count, ap length (concat-empty_groups frames)),
        λ k e p.
            let f =
              Found-in e.object_metadata
                (All-get_elem? (λ e. InOneFrame streams e.object_metadata) entries k e h p) in
            let (n, there) =
              get_elem?-group_at (offsets_of 0 streams) f.index f.offset k entries e p f.position in
            record {
              index = f.index;
              frame_offset = f.offset;
              stream = f.stream;
              group = group_at (offsets_of 0 streams) f.index entries;
              place = n;
              frame = f.frame;
              grouped = at f.index [] (
                  get_elem?-empty_groups frames f.index (
                    omega (
                      arith,
                      get_elem?-lt_length streams f.index f.stream f.frame,
                      same_length,
                      length-empty_groups frames,
                    )));
              listed = there;
              inside = f.ends;
              bytes =
                  f.bytes
                  ∙ ap (λ n. take e.object_metadata.size (drop n (concat streams))) (omega arith);
            },
      )
