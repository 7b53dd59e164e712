-- ===== src/Repo/Cleanup/Cleaned.antt =====
-- What a removal of empty directories may do, repo/fs.rs, and the leaves that it starts from.
use elfshaker.Prelude.{
  ◌<◌, ◌≡◌, ◌≢◌, refl, sym, ap, ◌∙◌, arith, subst, true, false, some, List, [], ◌∷◌, ◌++◌, length,
  contains, append-nil, Bool-cases, inl, inr, ◌==◌, list_eq, nat_eq, list_beq_iff,
}
use elfshaker.HashSet
use elfshaker.HashSet.Laws.{contains-without}
use elfshaker.PackPath.{dot}
use elfshaker.Repo.Clean.{Str, Names, drop_last, starts_with}
use elfshaker.Repo.Clean.Accepted.{drop_last-append}
use elfshaker.Repo.Cleanup.{Store, is_below, any_below, strip_prefix}

-- Only directories are gone, strictly below the boundary, and nothing is left below one of them.
pub record Cleaned (boundary : Names) (st st' : Store) : Type 0 where
  pub others : st'.others ≡ st.others
  pub kept : (d : Names) → contains st'.dirs d ≡ true → contains st.dirs d ≡ true
  pub gone :
      (d : Names)
      → contains st.dirs d ≡ true
      → contains st'.dirs d ≡ false
      → (is_below boundary d ≡ true)
        × (any_below d st'.dirs ≡ false)
        × (any_below d st'.others ≡ false)

any_below-kept :
    (d : Names) (after before : List Names)
    → ((x : Names) → contains after x ≡ true → contains before x ≡ true)
    → any_below d before ≡ false
    → any_below d after ≡ false
any_below-kept d [] before sub h = refl
any_below-kept d (a ∷ after) before sub h =
    let i = any_below-kept d after before (λ x t. sub x (ground (arith, t))) h in
    let here = not_below before (sub a (ground (arith, list_beq_iff a a))) h in
    ground (arith, i, here)
  where
    not_below :
        (l : List Names) → contains l a ≡ true → any_below d l ≡ false → is_below d a ≡ false
    not_below [] t k = cc
    not_below (x ∷ l) t k = elim (Bool-cases (x == a)) [
      | inl same ↦ subst (λ y. is_below d y ≡ false) ((list_beq_iff x a).0 same) (ground arith)
      | inr other ↦ not_below l (ground arith) (ground arith)
    ]

pub Cleaned-refl : (boundary : Names) (st : Store) → Cleaned boundary st st
Cleaned-refl boundary st = record { others = refl; kept = λ d h. h; gone = λ d h k. cc }

pub Cleaned-trans :
    (boundary : Names) (a b c : Store)
    → Cleaned boundary a b
    → Cleaned boundary b c
    → Cleaned boundary a c
Cleaned-trans boundary a b c x y = record {
  others = y.others ∙ x.others;
  kept = λ d h. x.kept d (y.kept d h);
  gone = λ d h k. elim (Bool-cases (contains b.dirs d)) [
    | inl there ↦ y.gone d there k
    | inr missing ↦
        let (below, dirs, others) = x.gone d h missing in
        (
          below,
          any_below-kept d c.dirs b.dirs y.kept dirs,
          subst (λ l. any_below d l ≡ false) (sym y.others) others,
        )
  ];
}

pub without-Cleaned :
    (boundary : Names) (st : Store) (d : Names)
    → is_below boundary d ≡ true
    → any_below d st.dirs ≡ false
    → any_below d st.others ≡ false
    → Cleaned boundary st (record st { dirs = HashSet.without d st.dirs })
without-Cleaned boundary st d below dirs others =
    let kept : (x : Names)
        → contains (HashSet.without d st.dirs) x ≡ true
        → contains st.dirs x ≡ true =
      λ x h. ground (arith, contains-without d x st.dirs, h) in
    record {
      others = refl;
      kept = kept;
      gone = λ x h k.
          let same : d ≡ x = (list_beq_iff d x).0 (ground (arith, contains-without d x st.dirs)) in
          subst
            (λ y.
              (is_below boundary y ≡ true)
              × (any_below y (HashSet.without d st.dirs) ≡ false)
              × (any_below y st.others ≡ false))
            same (below, any_below-kept d (HashSet.without d st.dirs) st.dirs kept dirs, others);
    }

-- A leaf below the boundary: the names between hold no "..".
pub record IsLeaf (boundary leaf : Names) : Type 0 where
  pub relative : Names
  pub inside : leaf ≡ boundary ++ relative
  pub no_parent : contains relative (dot ∷ dot ∷ []) ≡ false

pub strip_prefix-append : (front back : Names) → strip_prefix front (front ++ back) ≡ some back
strip_prefix-append [] back = refl
strip_prefix-append (f ∷ front) back =
    let i = strip_prefix-append front back in ground (arith, i, list_beq_iff f f)

starts_with-append : (front back : Names) → starts_with front (front ++ back) ≡ true
unfolding starts_with
starts_with-append [] [] = refl
starts_with-append [] (b ∷ back) = refl
starts_with-append (f ∷ front) back =
    let i = starts_with-append front back in ground (arith, i, list_beq_iff f f)

contains-drop_last :
    (names : Names) (x : Str) → contains names x ≡ false → contains (drop_last names) x ≡ false
unfolding drop_last
contains-drop_last [] x h = refl
contains-drop_last (n ∷ []) x h = refl
contains-drop_last (n ∷ m ∷ names) x h =
    let i = contains-drop_last (m ∷ names) x (ground arith) in ground (arith, i, h)

length-drop_last : (n : Str) (names : Names) → length (drop_last (n ∷ names)) < length (n ∷ names)
unfolding drop_last
length-drop_last n [] = omega arith
length-drop_last n (m ∷ names) = let i = length-drop_last m names in omega (arith, i)

pub shorter : (names : Names) → names ≢ [] → length (drop_last names) < length names
shorter [] h = elim (h refl) [ ]
shorter (n ∷ names) h = length-drop_last n names

pub parent-IsLeaf :
    (boundary leaf : Names)
    → IsLeaf boundary leaf
    → (leaf == boundary) ≡ false
    → IsLeaf boundary (drop_last leaf) × (leaf ≢ []) × (is_below boundary leaf ≡ true)
parent-IsLeaf boundary leaf l other = above l.relative l.inside l.no_parent
  where
    above :
        (relative : Names)
        → leaf ≡ boundary ++ relative
        → contains relative (dot ∷ dot ∷ []) ≡ false
        → IsLeaf boundary (drop_last leaf) × (leaf ≢ []) × (is_below boundary leaf ≡ true)
    above [] inside clear =
        let same = (list_beq_iff leaf boundary).1 (inside ∙ append-nil boundary) in cc
    above (r ∷ rs) inside clear = (
      record {
        relative = drop_last (r ∷ rs);
        inside = ap drop_last inside ∙ drop_last-append boundary r rs;
        no_parent = contains-drop_last (r ∷ rs) (dot ∷ dot ∷ []) clear;
      },
      (λ e. nonempty boundary (sym inside ∙ e)),
      (let t : starts_with boundary leaf ≡ true =
            subst (λ x. starts_with boundary x ≡ true) (sym inside)
              (starts_with-append boundary (r ∷ rs)) in
          ground (arith, t, other, list_beq_iff boundary leaf, list_beq_iff leaf boundary)),
    )
      where
        nonempty : (b : Names) → b ++ r ∷ rs ≢ []
        nonempty [] e = cc
        nonempty (x ∷ b) e = cc
