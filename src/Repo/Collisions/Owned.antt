-- ===== src/Repo/Collisions/Owned.antt =====
-- `preflight_untracked_collisions`: where it succeeds, nothing untracked stands at the outputs.
use elfshaker.Prelude.{
  ℕ, ◌≡◌, ◌≢◌, refl, sym, ap, ◌∙◌, arith, subst, true, false, Option, some, List, [], ◌∷◌, ◌++◌,
  append-nil, append_assoc, sort, insert_sorted, list_beq_iff, All, contains, Bool-cases,
  Result-cases, Option-cases, inl, inr, ok, ◌==◌, list_eq, nat_eq,
}
use elfshaker.PackPath.{components}
use elfshaker.Repo.Policy.{PathBytes, TargetPlatform, Key, Unicode}
use elfshaker.Repo.Clean.{Str, Names}
use elfshaker.Repo.Collisions.{
  Node, leaf, dir, Children, end, child, child_of, find, any_ancestor, is_owned, dedup, path_le,
  track, key_of, entered, walk, walk_children, check_entries, report,
  preflight_untracked_collisions,
}
use elfshaker.Repo.Collisions.Tracked.{Tracks, track-Tracks}

snoc-ne_nil : (xs : List Names) (x : Names) → xs ++ x ∷ [] ≢ []
snoc-ne_nil [] x h = cc
snoc-ne_nil (y ∷ xs) x h = cc

dedup-nil : (ps : List Names) → dedup ps ≡ [] → ps ≡ []
unfolding dedup
dedup-nil [] h = refl
dedup-nil (p ∷ []) h = cc
dedup-nil (p ∷ q ∷ ps) h = elim (Bool-cases (p == q)) [
  | inl same ↦ let never = dedup-nil (q ∷ ps) (rw (same, dedup) at h) in cc
  | inr other ↦ cc (rw (other, dedup) at h)
]

insert_sorted-ne_nil : (p : Names) (ps : List Names) → insert_sorted path_le p ps ≢ []
insert_sorted-ne_nil p [] h = cc
insert_sorted-ne_nil p (q ∷ ps) h = ground arith

sort-nil : (ps : List Names) → sort path_le ps ≡ [] → ps ≡ []
sort-nil [] h = refl
sort-nil (p ∷ ps) h = absurd (insert_sorted-ne_nil p (sort path_le ps) h)

module _ (u : Unicode) (platform : TargetPlatform) (fault : Names → Option ℕ)
    (tracked directories : List Key) where
  -- the path has a key: of a file that is tracked, or of a directory above one
  pub record IsOwned (path : Names) (node : Node) : Type 0 where
    pub key : Key
    pub keyed : key_of u platform fault path ≡ ok key
    pub owned : is_owned tracked directories key node ≡ true

  entered-key :
      (path : Names) (key : Key)
      → entered u platform fault path ≡ ok key
      → key_of u platform fault path ≡ ok key
  unfolding entered
  entered-key path key h = elim (Option-cases (fault path)) [
    | inr (e, bad) ↦ cc (rw (bad, entered) at h)
    | inl fine ↦ rw (fine, entered) at h
  ]

  -- all that is at the path or below it
  abbrev AllOwned : Names → Node → Type 0
  AllOwned path node = (s : Names) (n : Node) → find node s ≡ some n → IsOwned (path ++ s) n

  abbrev ChildrenOwned : Names → Children → Type 0
  ChildrenOwned path children =
      (x : Str) (node : Node) → child_of x children ≡ some node → AllOwned (path ++ x ∷ []) node

  dir-AllOwned :
      (path : Names) (children : Children)
      → IsOwned path (dir children)
      → ChildrenOwned path children
      → AllOwned path (dir children)
  unfolding find
  dir-AllOwned path children here below [] n h =
      let same : dir children ≡ n = cc in
      subst (IsOwned (path ++ [])) same
        (subst (λ p. IsOwned p (dir children)) (sym (append-nil path)) here)
  dir-AllOwned path children here below (x ∷ s) n h = elim (Option-cases (child_of x children)) [
    | inl missing ↦ cc (rw (missing, find) at h)
    | inr (node, there) ↦
        subst (λ p. IsOwned p n) (append_assoc path (x ∷ []) s)
          (below x node there s n (rw (there, find) at h))
  ]

  leaf-AllOwned : (path : Names) → IsOwned path leaf → AllOwned path leaf
  unfolding find
  leaf-AllOwned path here [] n h =
      let same : leaf ≡ n = cc in
      subst (IsOwned (path ++ [])) same (subst (λ p. IsOwned p leaf) (sym (append-nil path)) here)
  leaf-AllOwned path here (x ∷ s) n h = cc

  child-ChildrenOwned :
      (path : Names) (n : Str) (node : Node) (rest : Children)
      → AllOwned (path ++ n ∷ []) node
      → ChildrenOwned path rest
      → ChildrenOwned path (child n node rest)
  child-ChildrenOwned path n node rest first others x node' e = elim (Bool-cases (n == x)) [
    | inl here ↦
        let name : n ≡ x = (list_beq_iff n x).0 here in
        let same : some node ≡ some node' = rw here at e in
        let same' : node ≡ node' = cc in
        subst (λ m. AllOwned (path ++ m ∷ []) node') name
          (subst (AllOwned (path ++ n ∷ [])) same' first)
    | inr later ↦ others x node' (rw later at e)
  ]

  mutual
    unfolding walk walk_children

    walk-AllOwned :
        (collisions : List Names) (path : Names) (node : Node)
        → walk u platform fault tracked directories collisions path node ≡ ok []
        → (collisions ≡ []) × AllOwned path node
    walk-AllOwned collisions path leaf h = elim (Result-cases (entered u platform fault path)) [
      | inl (e, bad) ↦ cc (rw (bad, walk) at h)
      | inr (key, good) ↦ elim (Bool-cases (contains tracked key)) [
        | inr other ↦
            let e : collisions ++ path ∷ [] ≡ [] = cc (rw (good, other, walk) at h) in
            absurd (snoc-ne_nil collisions path e)
        | inl mine ↦ (
          cc (rw (good, mine, walk) at h),
          leaf-AllOwned path
              (record { key = key; keyed = entered-key path key good; owned = mine }),
        )
      ]
    ]
    walk-AllOwned collisions path (dir children) h =
        elim (Result-cases (entered u platform fault path)) [
          | inl (e, bad) ↦ cc (rw (bad, walk) at h)
          | inr (key, good) ↦ elim (Bool-cases (contains directories key)) [
            | inr other ↦
                let e : collisions ++ path ∷ [] ≡ [] = cc (rw (good, other, walk) at h) in
                absurd (snoc-ne_nil collisions path e)
            | inl mine ↦
                let (none_before, below) =
                  walk_children-ChildrenOwned collisions path children
                    (rw (good, mine, walk) at h) in
                (
                  none_before,
                  dir-AllOwned path children
                      (record { key = key; keyed = entered-key path key good; owned = mine }) below,
                )
          ]
        ]

    walk_children-ChildrenOwned :
        (collisions : List Names) (path : Names) (children : Children)
        → walk_children u platform fault tracked directories collisions path children ≡ ok []
        → (collisions ≡ []) × ChildrenOwned path children
    walk_children-ChildrenOwned collisions path end h = (cc, λ x node e. cc)
    walk_children-ChildrenOwned collisions path (child n node rest) h =
        elim (Result-cases
          (walk u platform fault tracked directories collisions (path ++ n ∷ []) node)) [
            | inl (e, bad) ↦ cc (rw (bad, walk_children) at h)
            | inr (later, went) ↦
                let (none_later, others) =
                  walk_children-ChildrenOwned later path rest (rw (went, walk_children) at h) in
                let (none_before, first) =
                  walk-AllOwned collisions (path ++ n ∷ []) node (went ∙ ap ok none_later) in
                (none_before, child-ChildrenOwned path n node rest first others)
          ]

  -- the output of an entry, where none of its ancestors is removed
  abbrev pub IsClear : Node → List Names → PathBytes → Type 0
  IsClear root removable path =
      any_ancestor removable [] (components path) ≡ false
      → (node : Node) → find root (components path) ≡ some node
      → (s : Names) (n : Node) → find node s ≡ some n
      → IsOwned (components path ++ s) n

  check_entries-All :
      (root : Node) (removable collisions : List Names) (entries : List PathBytes)
      → check_entries u platform fault tracked directories root removable collisions entries ≡ ok []
      → (collisions ≡ []) × All (IsClear root removable) entries
  unfolding check_entries
  check_entries-All root removable collisions [] h = (cc, tt)
  check_entries-All root removable collisions (path ∷ entries) h =
      let names = components path in
      elim (Bool-cases (any_ancestor removable [] names)) [
        | inl skip ↦
            let (none_before, all) =
              check_entries-All root removable collisions entries (rw (skip, check_entries) at h) in
            (none_before, ((λ keep. cc), all))
        | inr keep ↦ elim (Option-cases (fault names)) [
          | inr (e, bad) ↦ cc (rw (keep, bad, check_entries) at h)
          | inl fine ↦ elim (Option-cases (find root names)) [
            | inl missing ↦
                let (none_before, all) =
                  check_entries-All root removable collisions entries
                    (rw (keep, fine, missing, check_entries) at h) in
                (none_before, ((λ k node there. cc), all))
            | inr (node, there) ↦
                elim (Result-cases
                  (walk u platform fault tracked directories collisions names node)) [
                    | inl (e, bad) ↦ cc (rw (keep, fine, there, bad, check_entries) at h)
                    | inr (later, went) ↦
                        let (none_later, all) =
                          check_entries-All root removable later entries
                            (rw (keep, fine, there, went, check_entries) at h) in
                        let (none_before, owned) =
                          walk-AllOwned collisions names node (went ∙ ap ok none_later) in
                        (
                          none_before,
                          (
                            (λ k node' there'.
                                let same : some node ≡ some node' = sym there ∙ there' in
                                let same' : node ≡ node' = cc in
                                subst (AllOwned names) same' owned),
                            all,
                          ),
                        )
                  ]
          ]
        ]
      ]

report-nil :
    (collisions : List Names) → report (dedup (sort path_le collisions)) ≡ ok tt → collisions ≡ []
report-nil collisions h =
    sort-nil collisions
      (dedup-nil (sort path_le collisions) (empty (dedup (sort path_le collisions)) h))
  where
    empty : (l : List Names) → report l ≡ ok tt → l ≡ []
    empty [] e = refl
    empty (c ∷ cs) e = cc

-- Where the preflight succeeds, at the output of each entry and everywhere below it there are only
-- files and links of the head and directories above them, unless an ancestor of the output is
-- removed first.
pub preflight_untracked_collisions-IsClear :
    (u : Unicode) (platform : TargetPlatform) (fault : Names → Option ℕ) (root : Node)
    (entries head_entries : List PathBytes) (removable : List Names)
    → preflight_untracked_collisions u platform fault root entries head_entries removable ≡ ok tt
    → (sets : List Key × List Key) × (track u platform fault [] [] head_entries ≡ ok sets)
      × Tracks u platform head_entries sets
      × All (IsClear u platform fault sets.0 sets.1 root removable) entries
unfolding preflight_untracked_collisions
preflight_untracked_collisions-IsClear u platform fault root entries head_entries removable h =
    elim (Result-cases (track u platform fault [] [] head_entries)) [
      | inl (e, bad) ↦ cc (rw (bad, preflight_untracked_collisions) at h)
      | inr (sets, tracked) ↦
          elim (Result-cases
            (check_entries u platform fault sets.0 sets.1 root removable [] entries)) [
              | inl (e, bad) ↦ cc (rw (tracked, bad, preflight_untracked_collisions) at h)
              | inr (collisions, went) ↦
                  let e =
                    report-nil collisions
                      (rw (tracked, went, preflight_untracked_collisions) at h) in
                  (
                    sets,
                    tracked,
                    track-Tracks u platform fault head_entries sets tracked,
                    (check_entries-All u platform fault sets.0 sets.1 root removable [] entries
                        (went ∙ ap ok e)).1,
                  )
            ]
    ]
