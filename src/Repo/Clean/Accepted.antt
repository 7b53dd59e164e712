-- ===== src/Repo/Clean/Accepted.antt =====
-- `clean_file_list`: what the list of a snapshot's files is, where it is accepted.
use elfshaker.Prelude.{
  ◌≡◌, ◌≢◌, refl, ap, ◌∙◌, arith, subst, Bool, true, false, ◌||◌, Option, List, [], ◌∷◌, ◌++◌,
  append_assoc, All, contains, Bool-cases, Result-cases, inl, inr, Result, ok, and_then,
  if◌then◌else◌, ◌==◌, list_eq, nat_eq, list_beq_iff,
}
use elfshaker.HashSet
use elfshaker.HashSet.{IsDistinct}
use elfshaker.Repo.Clean.{
  Str, Names, Error, path_components, drop_last, normalize_relative_path, relative_data_dir,
  is_data, reject_from, reject_symlink_ancestors, clean_each, clean_file_list,
}
use elfshaker.Repo.Clean.Normal.{IsProper, normalize_relative_path-All}

-- the names that the paths normalize to
abbrev pub normalize_all : List Str → Result Error (List Names)
normalize_all [] = ok []
normalize_all (f ∷ files) =
    and_then (normalize_relative_path (path_components f))
      λ path. and_then (normalize_all files) λ paths. ok (path ∷ paths)

-- those outside the data directory
abbrev pub outside : Option Names → List Names → List Names
outside data_dir [] = []
outside data_dir (p ∷ ps) =
    let rest = outside data_dir ps in if is_data data_dir p then rest else p ∷ rest

pub drop_last-append :
    (front : Names) (d : Str) (ds : Names)
    → drop_last (front ++ d ∷ ds) ≡ front ++ drop_last (d ∷ ds)
unfolding drop_last
drop_last-append [] d ds = refl
drop_last-append (f ∷ []) d ds = refl
drop_last-append (f ∷ g ∷ front) d ds = ap (◌∷◌ f) (drop_last-append (g ∷ front) d ds)

module _ (is_symlink : Names → Result Error Bool) where
  reject_from-step :
      (path candidate : Names) (p : Str) (parents : Names)
      → reject_from is_symlink path candidate (p ∷ parents) ≡ ok tt
      → (is_symlink (candidate ++ p ∷ []) ≡ ok false)
        × (reject_from is_symlink path (candidate ++ p ∷ []) parents ≡ ok tt)
  unfolding reject_from
  reject_from-step path candidate p parents h =
      elim (Result-cases (is_symlink (candidate ++ p ∷ []))) [
        | inl (bad, q) ↦ cc (rw (q, reject_from) at h)
        | inr (true, q) ↦ cc (rw (q, reject_from) at h)
        | inr (false, q) ↦ (q, rw (q, reject_from) at h)
      ]

  reject_from_lem :
      (path candidate parents : Names) (x : Str) (xs ys : Names)
      → reject_from is_symlink path candidate parents ≡ ok tt
      → parents ≡ (x ∷ xs) ++ ys
      → is_symlink (candidate ++ x ∷ xs) ≡ ok false
  reject_from_lem path candidate [] x xs ys h e = cc
  reject_from_lem path candidate (p ∷ parents) x [] ys h e =
      let same : p ≡ x = cc in rw (← same) (reject_from-step path candidate p parents h).0
  reject_from_lem path candidate (p ∷ parents) x (y ∷ xs) ys h e =
      let same : p ≡ x = cc in
      let rest : parents ≡ (y ∷ xs) ++ ys = cc in
      let deeper =
        reject_from_lem path (candidate ++ p ∷ []) parents y xs ys
          (reject_from-step path candidate p parents h).1 rest in
      rw (← same)
        (subst (λ c. is_symlink c ≡ ok false) (append_assoc candidate (p ∷ []) (y ∷ xs)) deeper)

  -- The path has a name, its names are proper, it is outside the data directory, and no directory
  -- above it is a link.
  pub record IsAccepted (data_dir : Option Names) (path : Names) : Type 0 where
    pub ne_empty : path ≢ []
    pub names : All IsProper path
    pub outside_data : is_data data_dir path ≡ false
    pub no_link :
        (x : Str) (xs : Names) (d : Str) (ds : Names)
        → path ≡ (x ∷ xs) ++ d ∷ ds
        → is_symlink (x ∷ xs) ≡ ok false

  reject_symlink_ancestors_lem :
      (path : Names) (x : Str) (xs : Names) (d : Str) (ds : Names)
      → reject_symlink_ancestors is_symlink path ≡ ok tt
      → path ≡ (x ∷ xs) ++ d ∷ ds
      → is_symlink (x ∷ xs) ≡ ok false
  unfolding reject_symlink_ancestors
  reject_symlink_ancestors_lem path x xs d ds h e =
      reject_from_lem path [] (drop_last path) x xs (drop_last (d ∷ ds)) h
        (ap drop_last e ∙ drop_last-append (x ∷ xs) d ds)

  -- The list is made of the given paths, in their order, but for those of the data directory; they
  -- are accepted, and none stands twice.
  pub record Clean (data_dir : Option Names) (files : List Str) (cleaned : List Names)
      : Type 0 where
    pub all : List Names
    pub normalized : normalize_all files ≡ ok all
    pub kept : cleaned ≡ outside data_dir all
    pub accepted : All (IsAccepted data_dir) cleaned
    pub distinct : IsDistinct cleaned

  -- none of the paths was seen before
  abbrev Fresh : List Names → List Names → Type 0
  Fresh seen = All λ p. contains seen p ≡ false

  insert_lem :
      (p : Names) (seen : List Names)
      → (HashSet.insert p seen).1 ≡ true
      → (contains seen p ≡ false)
        × ((k : Names) → contains (HashSet.insert p seen).0 k ≡ (contains seen k || p == k))
  unfolding HashSet.insert
  insert_lem p seen h = (ground arith, λ k. ground arith)

  Fresh-insert :
      (p : Names) (seen rest : List Names)
      → (HashSet.insert p seen).1 ≡ true
      → Fresh (HashSet.insert p seen).0 rest
      → Fresh seen rest × (contains rest p ≡ false)
  Fresh-insert p seen [] h k = (tt, refl)
  Fresh-insert p seen (r ∷ rest) h (k, ks) =
      let grown = (insert_lem p seen h).1 r in
      let (fresh, once) = Fresh-insert p seen rest h ks in
      (
        (ground (arith, grown, k), fresh),
        ground (arith, grown, k, once, list_beq_iff p r, list_beq_iff r p),
      )

  clean_each-Clean :
      (data_dir : Option Names) (seen : List Names) (files : List Str) (cleaned : List Names)
      → clean_each is_symlink data_dir seen files ≡ ok cleaned
      → Clean data_dir files cleaned × Fresh seen cleaned
  unfolding clean_each
  clean_each-Clean data_dir seen [] cleaned h =
      let e : [] ≡ cleaned = cc in
      subst (λ l. Clean data_dir [] l × Fresh seen l) e
        (record { all = []; normalized = refl; kept = refl; accepted = tt; distinct = tt }, tt)
  clean_each-Clean data_dir seen (f ∷ files) cleaned h =
      elim (Result-cases (normalize_relative_path (path_components f))) [
        | inl (e, bad) ↦ cc (rw (bad, clean_each) at h)
        | inr (path, normal) ↦ elim (Bool-cases (is_data data_dir path)) [
          | inl skip ↦
              let (c, fresh) =
                clean_each-Clean data_dir seen files cleaned (rw (normal, skip, clean_each) at h) in
              (
                record {
                  all = path ∷ c.all;
                  normalized = rw (normal, c.normalized) refl;
                  kept = rw skip c.kept;
                  accepted = c.accepted;
                  distinct = c.distinct;
                },
                fresh,
              )
          | inr take ↦ elim (Bool-cases (HashSet.insert path seen).1) [
            | inr twice ↦ cc (rw (normal, take, twice, clean_each) at h)
            | inl new ↦ elim (Result-cases (reject_symlink_ancestors is_symlink path)) [
              | inl (e, bad) ↦ cc (rw (normal, take, new, bad, clean_each) at h)
              | inr (u, sound) ↦
                  elim (Result-cases
                    (clean_each is_symlink data_dir (HashSet.insert path seen).0 files)) [
                      | inl (e, bad) ↦ cc (rw (normal, take, new, sound, bad, clean_each) at h)
                      | inr (rest, went) ↦
                          let e : path ∷ rest ≡ cleaned =
                            cc (rw (normal, take, new, sound, went, clean_each) at h) in
                          let (c, fresh) =
                            clean_each-Clean data_dir (HashSet.insert path seen).0 files rest
                              went in
                          let (fresh', once) = Fresh-insert path seen rest new fresh in
                          let (ne_empty, names) = normalize_relative_path-All f path normal in
                          subst (λ l. Clean data_dir (f ∷ files) l × Fresh seen l) e
                            (
                              record {
                                all = path ∷ c.all;
                                normalized = rw (normal, c.normalized) refl;
                                kept = rw take (ap (◌∷◌ path) c.kept);
                                accepted = (
                                  record {
                                    ne_empty = ne_empty;
                                    names = names;
                                    outside_data = take;
                                    no_link = λ x xs d ds q.
                                        reject_symlink_ancestors_lem path x xs d ds sound q;
                                  },
                                  c.accepted,
                                );
                                distinct = (once, c.distinct);
                              },
                              ((insert_lem path seen new).0, fresh'),
                            )
                    ]
            ]
          ]
        ]
      ]

  -- Where a list of files is accepted, it is the given paths, normalized and in their order, but
  -- for those inside the data directory; each is a path below the repository that passes through
  -- no symbolic link, and none stands twice.
  pub clean_file_list-Clean :
      (repo_dir data_dir : Str) (files : List Str) (cleaned : List Names)
      → clean_file_list is_symlink repo_dir data_dir files ≡ ok cleaned
      → (dir : Option Names) × (relative_data_dir repo_dir data_dir ≡ ok dir)
        × Clean dir files cleaned
  unfolding clean_file_list
  clean_file_list-Clean repo_dir data_dir files cleaned h =
      elim (Result-cases (relative_data_dir repo_dir data_dir)) [
        | inl (e, bad) ↦ cc (rw (bad, clean_file_list) at h)
        | inr (dir, found) ↦ (
          dir,
          found,
          (clean_each-Clean dir [] files cleaned (rw (found, clean_file_list) at h)).0,
        )
      ]
