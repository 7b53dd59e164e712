-- ===== src/Repo/Collisions/Tracked.antt =====
-- The keys that `preflight_untracked_collisions` takes from the head: of its files, and of the
-- directories above them.
use elfshaker.Prelude.{
  ℕ, ◌≡◌, ◌⊎◌, refl, sym, ap, ◌∙◌, arith, subst, true, ◌||◌, Option, List, [], ◌∷◌, ◌++◌,
  append_assoc, list_beq_iff, contains, Bool-cases, Result-cases, inl, inr, Result, ok, and_then,
  map_err, ◌==◌, list_eq, nat_eq,
}
use elfshaker.HashSet
use elfshaker.Repo.Policy.{PathBytes, TargetPlatform, Key, Unicode, target_path_key}
use elfshaker.Repo.Clean.{Str, Names}
use elfshaker.Repo.Collisions.{Error, policy, prefixes_from, insert_directories, track}

contains-insert_key :
    (p : Key) (set : List Key) (k : Key)
    → contains (HashSet.insert p set).0 k ≡ (contains set k || p == k)
unfolding HashSet.insert
contains-insert_key p set k =
    let alike : (p == k) ≡ true → contains set k ≡ contains set p =
      λ e. ap (contains set) (sym ((list_beq_iff p k).0 e)) in
    ground (arith, alike)

-- a key of the list starts with the key and goes on
abbrev pub IsAbove : List Key → Key → Type 0
IsAbove keys k = (x : Str) × (xs : Key) × (contains keys (k ++ x ∷ xs) ≡ true)

prefixes_from-IsAbove :
    (front back : Key) (k : Key)
    → contains (prefixes_from front back) k ≡ true
    → (x : Str) × (xs : Key) × (k ++ x ∷ xs ≡ front ++ back)
unfolding prefixes_from
prefixes_from-IsAbove front [] k h = cc
prefixes_from-IsAbove front (c ∷ []) k h = cc
prefixes_from-IsAbove front (c ∷ d ∷ cs) k h = elim (Bool-cases ((front ++ c ∷ []) == k)) [
  | inl here ↦ (
    d,
    cs,
    ap (λ l. l ++ d ∷ cs) (sym ((list_beq_iff (front ++ c ∷ []) k).0 here))
        ∙ append_assoc front (c ∷ []) (d ∷ cs),
  )
  | inr later ↦
      let (x, xs, e) = prefixes_from-IsAbove (front ++ c ∷ []) (d ∷ cs) k (ground arith) in
      (x, xs, e ∙ append_assoc front (c ∷ []) (d ∷ cs))
]

contains-insert_directories :
    (ks set : List Key) (k : Key)
    → contains (insert_directories ks set) k ≡ true
    → (contains ks k ≡ true) ⊎ (contains set k ≡ true)
contains-insert_directories [] set k h = inr h
contains-insert_directories (l ∷ ks) set k h =
    elim (contains-insert_directories ks (HashSet.insert l set).0 k h) [
      | inl there ↦ inl (ground arith)
      | inr grown ↦
          let e = contains-insert_key l set k in
          elim (Bool-cases (contains set k)) [
            | inl old ↦ inr old
            | inr new ↦ inl (ground (arith, e, grown, new))
          ]
    ]

module _ (u : Unicode) (platform : TargetPlatform) where
  -- the keys of the entries
  abbrev pub head_keys : List PathBytes → Result Error (List Key)
  head_keys [] = ok []
  head_keys (path ∷ paths) =
      and_then (map_err policy (target_path_key u path platform))
        λ key. and_then (head_keys paths) λ keys. ok (key ∷ keys)

  -- What is tracked is the key of an entry, and a directory is above one.
  pub record Tracks (head_entries : List PathBytes) (sets : List Key × List Key) : Type 0 where
    pub keys : List Key
    pub entries : head_keys head_entries ≡ ok keys
    pub tracked : (k : Key) → contains sets.0 k ≡ true → contains keys k ≡ true
    pub directories : (k : Key) → contains sets.1 k ≡ true → IsAbove keys k

  record Adds (tracked directories : List Key) (head_entries : List PathBytes)
      (sets : List Key × List Key) : Type 0 where
    keys : List Key
    entries : head_keys head_entries ≡ ok keys
    new_tracked :
        (k : Key)
        → contains sets.0 k ≡ true
        → (contains tracked k ≡ true) ⊎ (contains keys k ≡ true)
    new_directories :
        (k : Key) → contains sets.1 k ≡ true → (contains directories k ≡ true) ⊎ IsAbove keys k

  IsAbove-later : (key : Key) (keys : List Key) (k : Key) → IsAbove keys k → IsAbove (key ∷ keys) k
  IsAbove-later key keys k (x, xs, h) = (x, xs, ground (arith, h))

  module _ (fault : Names → Option ℕ) where
    track-Adds :
        (tracked directories : List Key) (head_entries : List PathBytes)
        (sets : List Key × List Key)
        → track u platform fault tracked directories head_entries ≡ ok sets
        → Adds tracked directories head_entries sets
    unfolding track
    track-Adds tracked directories [] sets h =
        let e : (tracked, directories) ≡ sets = cc in
        subst (Adds tracked directories []) e (record {
          keys = [];
          entries = refl;
          new_tracked = λ k t. inl t;
          new_directories = λ k t. inl t;
        })
    track-Adds tracked directories (path ∷ paths) sets h =
        elim (Result-cases (map_err policy (target_path_key u path platform))) [
          | inl (e, bad) ↦ cc (rw (bad, track) at h)
          | inr (key, good) ↦
              let a =
                track-Adds (HashSet.insert key tracked).0
                  (insert_directories (prefixes_from [] key) directories) paths sets
                  (rw (good, track) at h) in
              record {
                keys = key ∷ a.keys;
                entries = rw (good, a.entries) refl;
                new_tracked = λ k t. elim (a.new_tracked k t) [
                  | inr later ↦ inr (ground arith)
                  | inl grown ↦
                      let i = contains-insert_key key tracked k in
                      elim (Bool-cases (contains tracked k)) [
                        | inl old ↦ inl old
                        | inr new ↦ inr (ground (arith, i, grown, new))
                      ]
                ];
                new_directories = λ k t. elim (a.new_directories k t) [
                  | inr later ↦ inr (IsAbove-later key a.keys k later)
                  | inl grown ↦
                      elim (contains-insert_directories (prefixes_from [] key) directories k
                        grown) [
                          | inr old ↦ inl old
                          | inl new ↦
                              let (x, xs, e) = prefixes_from-IsAbove [] key k new in
                              inr (x, xs, ground (arith, list_beq_iff key (k ++ x ∷ xs), sym e))
                        ]
                ];
              }
        ]

    pub track-Tracks :
        (head_entries : List PathBytes) (sets : List Key × List Key)
        → track u platform fault [] [] head_entries ≡ ok sets
        → Tracks head_entries sets
    track-Tracks head_entries sets h =
        let a = track-Adds [] [] head_entries sets h in
        record {
          keys = a.keys;
          entries = a.entries;
          tracked = λ k t. elim (a.new_tracked k t) [ inl e ↦ cc | inr there ↦ there ];
          directories = λ k t. elim (a.new_directories k t) [ inl e ↦ cc | inr there ↦ there ];
        }
