-- ===== src/Repo/Ancestors/Links.antt =====
-- `preflight_destination_ancestors`: no file of an extraction is reached through a link that stays.
use elfshaker.Prelude.{
  ℕ, ◌≡◌, sym, ap, ◌∙◌, arith, subst, Bool, true, false, not, ◌&&◌, List, [], ◌∷◌, ◌++◌,
  append_assoc, All, contains, Bool-cases, Result-cases, inl, inr, Result, ok, list_eq, nat_eq,
}
use elfshaker.PackPath.{components}
use elfshaker.Repo.Clean.{Str, Names, drop_last}
use elfshaker.Repo.Clean.Accepted.{drop_last-append}
use elfshaker.Repo.Ancestors.{
  IoError, check_from, check_destination_ancestors, preflight_destination_ancestors,
}

module _ (is_symlink : Names → Result IoError Bool) (removable : List Names) where
  -- What `lstat` documents: behind a path that is not there, nothing is there.
  pub record IsFileSystem : Type 0 where
    pub behind_missing :
        (p q : Names) (link : Bool)
        → is_symlink (p ++ q) ≡ ok link
        → (there : Bool) × (is_symlink p ≡ ok there)

  -- a link above the path is one that is removed
  abbrev pub IsReachable : Names → Type 0
  IsReachable path =
      (x : Str) (xs : Names) (d : Str) (ds : Names)
      → path ≡ (x ∷ xs) ++ d ∷ ds
      → is_symlink (x ∷ xs) ≡ ok true
      → contains removable (x ∷ xs) ≡ true

  module _ (fs : IsFileSystem) where
    -- the first round of the loop, where there is a later path
    check_from-step :
        (current : Names) (c : Str) (cs : Names) (there : Bool)
        → is_symlink (current ++ c ∷ []) ≡ ok there
        → check_from is_symlink removable current (c ∷ cs) ≡ ok tt
        → (there && not (contains removable (current ++ c ∷ [])) ≡ false)
          × (check_from is_symlink removable (current ++ c ∷ []) cs ≡ ok tt)
    unfolding check_from
    check_from-step current c cs there e h =
        elim (Bool-cases (there && not (contains removable (current ++ c ∷ [])))) [
          | inl bad ↦ cc (rw (e, bad, check_from) at h)
          | inr good ↦ (good, rw (e, good, check_from) at h)
        ]

    check_from_lem :
        (current parents : Names) (x : Str) (xs ys : Names)
        → check_from is_symlink removable current parents ≡ ok tt
        → parents ≡ (x ∷ xs) ++ ys
        → is_symlink (current ++ x ∷ xs) ≡ ok true
        → contains removable (current ++ x ∷ xs) ≡ true
    check_from_lem current [] x xs ys h e link = cc
    check_from_lem current (p ∷ parents) x [] ys h e link =
        let same : x ≡ p = cc in
        let link' : is_symlink (current ++ p ∷ []) ≡ ok true = rw same at link in
        let (good, _) = check_from-step current p parents true link' h in rw same (ground arith)
    check_from_lem current (p ∷ parents) x (y ∷ xs) ys h e link =
        let same : x ≡ p = cc in
        let rest : parents ≡ (y ∷ xs) ++ ys = cc in
        let assoc : current ++ x ∷ y ∷ xs ≡ (current ++ p ∷ []) ++ y ∷ xs =
          rw same (sym (append_assoc current (p ∷ []) (y ∷ xs))) in
        let link' : is_symlink ((current ++ p ∷ []) ++ y ∷ xs) ≡ ok true =
          subst (λ l. is_symlink l ≡ ok true) assoc link in
        let (there, found) = fs.behind_missing (current ++ p ∷ []) (y ∷ xs) true link' in
        let (_, went) = check_from-step current p parents there found h in
        subst (λ l. contains removable l ≡ true) (sym assoc)
          (check_from_lem (current ++ p ∷ []) parents y xs ys went rest link')

    -- Where the preflight succeeds, every symbolic link above a path is one that the extraction
    -- removes first. Behind a path that is not there, nothing is there.
    pub preflight_destination_ancestors-IsReachable :
        (paths : List (List ℕ))
        → preflight_destination_ancestors is_symlink removable paths ≡ ok tt
        → All (λ path. IsReachable (components path)) paths
    unfolding preflight_destination_ancestors check_destination_ancestors
    preflight_destination_ancestors-IsReachable [] h = tt
    preflight_destination_ancestors-IsReachable (path ∷ paths) h =
        elim (Result-cases (check_destination_ancestors is_symlink removable (components path))) [
          | inl (e, bad) ↦ cc (rw (bad, preflight_destination_ancestors) at h)
          | inr (u, good) ↦ (
            λ x xs d ds e link.
                check_from_lem [] (drop_last (components path)) x xs (drop_last (d ∷ ds)) good
                  (ap drop_last e ∙ drop_last-append (x ∷ xs) d ds) link,
            preflight_destination_ancestors-IsReachable paths
                (rw (good, preflight_destination_ancestors) at h),
          )
        ]
