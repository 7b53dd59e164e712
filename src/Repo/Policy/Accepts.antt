-- ===== src/Repo/Policy/Accepts.antt =====
-- Which path sets `preflight_path_policy` of repo/repository.rs accepts.
use elfshaker.Prelude.{
  AllPairs-sort, ◌≤◌, ◌≡◌, ◌↔◌, refl, arith, true, false, none, List, [], ◌∷◌, length, ok, contains,
  ◌==◌, list_eq, nat_eq, list_beq_iff, All, AllPairs, IsSorted, sort, sort-IsSorted,
  AllPairs-of-sort, Bool-cases, Option-cases, Result-cases, subst, inl, inr,
}
use elfshaker.Repo.Policy.{
  TargetPlatform, Key, PathBytes, Unicode, target_path_key, target_paths, starts_with,
  is_component_prefix, key_le, check_pair, check_neighbours, preflight_path_policy,
}
use elfshaker.Repo.Policy.Prefixes.{
  key_order, Disjoint, Disjoint-symm, Disjoint-of_le, All-Disjoint, starts_with_refl,
}

starts_with-length : (p x : Key) → starts_with p x ≡ true → length x ≤ length p
starts_with-length p [] h = omega arith
starts_with-length [] (d ∷ x) h = cc
starts_with-length (c ∷ p) (d ∷ x) h = ground (arith, starts_with-length p x)

starts_with_whole : (p x : Key) → starts_with p x ≡ true → length x ≡ length p → x ≡ p
starts_with_whole [] [] h e = refl
starts_with_whole (c ∷ p) [] h e = absurd (omega arith)
starts_with_whole [] (d ∷ x) h e = cc
starts_with_whole (c ∷ p) (d ∷ x) h e = ground (arith, list_beq_iff c d, starts_with_whole p x)

check_pair-starts_with :
    (a b : Key × PathBytes) → check_pair a b ≡ none → starts_with b.0 a.0 ≡ false
unfolding check_pair is_component_prefix
check_pair-starts_with a b h =
    ground (arith, starts_with-length b.0 a.0, starts_with_whole b.0 a.0, list_beq_iff a.0 b.0)

check_pair-Disjoint : (a b : Key × PathBytes) → Disjoint a b → check_pair a b ≡ none
unfolding check_pair is_component_prefix
check_pair-Disjoint a b d =
    ground (arith, d.left, d.right, list_beq_iff a.0 b.0, starts_with_refl a.0)

check_neighbours-AllPairs :
    (ts : List (Key × PathBytes))
    → IsSorted key_le ts
    → check_neighbours ts ≡ none
    → AllPairs Disjoint ts
unfolding check_neighbours
check_neighbours-AllPairs [] s h = tt
check_neighbours-AllPairs (a ∷ []) s h = (tt, tt)
check_neighbours-AllPairs (a ∷ b ∷ rest) ((ab, arest), (brest, s)) h =
    elim (Option-cases (check_pair a b)) [
      | inl fine ↦
          let apart = check_pair-starts_with a b fine in
          let ih =
            check_neighbours-AllPairs (b ∷ rest) (brest, s) (rw (fine, check_neighbours) at h) in
          ((Disjoint-of_le a b ab apart, All-Disjoint a b rest ab arest brest apart), ih)
      | inr (e, bad) ↦ cc (rw (bad, check_neighbours) at h)
    ]

check_neighbours-none :
    (ts : List (Key × PathBytes)) → AllPairs Disjoint ts → check_neighbours ts ≡ none
unfolding check_neighbours
check_neighbours-none [] h = refl
check_neighbours-none (a ∷ []) h = refl
check_neighbours-none (a ∷ b ∷ rest) ((d, _), p) =
    rw (check_pair-Disjoint a b d, check_neighbours) (check_neighbours-none (b ∷ rest) p)

module _ (u : Unicode) (platform : TargetPlatform) where
  -- each path with its key, in order
  abbrev pub KeyedBy : List (Key × PathBytes) → List PathBytes → Type 0
  KeyedBy [] [] = Unit
  KeyedBy ((k, q) ∷ ts) (p ∷ ps) = (target_path_key u p platform ≡ ok k) × (q ≡ p) × KeyedBy ts ps
  KeyedBy _ _ = ⊥

  target_paths-KeyedBy :
      (exact ps : List PathBytes) (ts : List (Key × PathBytes))
      → target_paths u platform exact ps ≡ ok ts
      → KeyedBy ts ps
  unfolding target_paths
  target_paths-KeyedBy exact [] [] h = tt
  target_paths-KeyedBy exact [] (t ∷ ts) h = cc
  target_paths-KeyedBy exact (p ∷ ps) ts h = elim (Bool-cases (contains exact p)) [
    | inl seen ↦ cc (rw seen at h)
    | inr new ↦ elim (Result-cases (target_path_key u p platform)) [
      | inl (e, bad) ↦ cc (rw (new, bad) at h)
      | inr (k, key) ↦ elim (Result-cases (target_paths u platform (p ∷ exact) ps)) [
        | inl (e, bad) ↦ cc (rw (new, key, bad) at h)
        | inr (rest, keyed) ↦
            let whole : (k, p) ∷ rest ≡ ts = cc (rw (new, key, keyed) at h) in
            subst (λ l. KeyedBy l (p ∷ ps)) whole
              (key, refl, target_paths-KeyedBy (p ∷ exact) ps rest keyed)
      ]
    ]
  ]

  KeyedBy-fresh :
      (exact ps : List PathBytes) (ts : List (Key × PathBytes)) (k : Key) (p : PathBytes)
      → target_path_key u p platform ≡ ok k
      → KeyedBy ts ps
      → All (Disjoint (k, p)) ts
      → All (λ q. contains exact q ≡ false) ps
      → All (λ q. contains (p ∷ exact) q ≡ false) ps
  KeyedBy-fresh exact [] ts k p key h d f = tt
  KeyedBy-fresh exact (q ∷ ps) [] k p key h d f = absurd h
  KeyedBy-fresh exact (q ∷ ps) ((l, r) ∷ ts) k p key (lkey, r≡q, h) (d, ds) (f, fs) = (
    elim (Bool-cases (p == q)) [
      | inl same ↦
          let p≡q : p ≡ q = (list_beq_iff p q).0 same in
          let k≡l : k ≡ l = cc (key, lkey, p≡q) in cc (rw k≡l at d.left, starts_with_refl l)
      | inr other ↦ rw (other, contains) f
    ],
    KeyedBy-fresh exact ps ts k p key h ds fs,
  )

  target_paths_of-KeyedBy :
      (exact ps : List PathBytes) (ts : List (Key × PathBytes))
      → KeyedBy ts ps
      → AllPairs Disjoint ts
      → All (λ q. contains exact q ≡ false) ps
      → target_paths u platform exact ps ≡ ok ts
  unfolding target_paths
  target_paths_of-KeyedBy exact [] [] h d f = refl
  target_paths_of-KeyedBy exact [] (t ∷ ts) h d f = absurd h
  target_paths_of-KeyedBy exact (p ∷ ps) [] h d f = absurd h
  target_paths_of-KeyedBy exact (p ∷ ps) ((k, q) ∷ ts) (key, q≡p, h) (d, ds) (f, fs) =
      let d' : All (Disjoint (k, p)) ts = subst (λ x. All (Disjoint (k, x)) ts) q≡p d in
      rw
        (
          f,
          key,
          target_paths_of-KeyedBy (p ∷ exact) ps ts h ds
              (KeyedBy-fresh exact ps ts k p key h d' fs),
          q≡p,
        )
        refl

  All-nothing_seen : (ps : List PathBytes) → All (λ q. contains [] q ≡ false) ps
  All-nothing_seen [] = tt
  All-nothing_seen (p ∷ ps) = (refl, All-nothing_seen ps)

  -- the policy's meaning: every path has a key, and no key is equal to or a prefix of another's
  pub Holdable : List PathBytes → Type 0
  Holdable paths = (ts : List (Key × PathBytes)) × KeyedBy ts paths × AllPairs Disjoint ts

  preflight_path_policy→Holdable :
      (paths : List PathBytes) → preflight_path_policy u paths platform ≡ none → Holdable paths
  unfolding preflight_path_policy Holdable
  preflight_path_policy→Holdable paths h = elim (Result-cases (target_paths u platform [] paths)) [
    | inl (e, bad) ↦ cc (rw (bad, preflight_path_policy) at h)
    | inr (ts, keyed) ↦ (
      ts,
      target_paths-KeyedBy [] paths ts keyed,
      AllPairs-of-sort key_le Disjoint Disjoint-symm ts (
          check_neighbours-AllPairs (sort key_le ts)
            (sort-IsSorted key_le (λ a b c. key_order.trans a.0 b.0 c.0)
              (λ a b. key_order.total a.0 b.0) ts)
            (rw (keyed, preflight_path_policy) at h)),
    )
  ]

  preflight_path_policy_of-Holdable :
      (paths : List PathBytes) → Holdable paths → preflight_path_policy u paths platform ≡ none
  unfolding preflight_path_policy Holdable
  preflight_path_policy_of-Holdable paths (ts, keyed, apart) =
      rw
        (
          preflight_path_policy,
          target_paths_of-KeyedBy [] paths ts keyed apart (All-nothing_seen paths),
        )
        (check_neighbours-none (sort key_le ts)
          (AllPairs-sort key_le Disjoint Disjoint-symm ts apart))

  -- The preflight accepts a list of paths exactly when the target platform gives every path a
  -- key and, between any two places of the list, neither key equals or is a prefix of the other.
  pub preflight_path_policy-Holdable :
      (paths : List PathBytes) → (preflight_path_policy u paths platform ≡ none) ↔ Holdable paths
  preflight_path_policy-Holdable paths =
      (preflight_path_policy→Holdable paths, preflight_path_policy_of-Holdable paths)
