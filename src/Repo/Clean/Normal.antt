-- ===== src/Repo/Clean/Normal.antt =====
-- `normalize_relative_path`: what a normalized path is, and that it stays the same.
use elfshaker.Prelude.{
  ◌≡◌, ◌≢◌, refl, arith, subst, false, List, [], ◌∷◌, ◌++◌, map, All, All-append, append-nil,
  append_assoc, ◌∙◌, sym, ap, Bool-cases, Result-cases, inl, inr, ok, err, if◌then◌else◌, ◌==◌,
  list_eq, nat_eq, list_beq_iff,
}
use elfshaker.PackPath.{dot, split, Component, normal, cur_dir, parent_dir, root_dir, prefix}
use elfshaker.PackPath.Split.{join, IsPart, All-IsPart-split, split-join}
use elfshaker.PackPath.Canonical.{IsName}
use elfshaker.Repo.Clean.{
  Str, Names, rest_components, relative_components, starts_with_slash, path_components, drop_last,
  normalize_from, normalize_relative_path, no_file_component,
}

-- not empty, "." or "..", and without a slash
abbrev pub IsProper : Str → Type 0
IsProper c = IsName c × IsPart c

abbrev IsProperComponent : Component → Type 0
IsProperComponent (normal c) = IsProper c
IsProperComponent _ = Unit

rest_components-All :
    (parts : List Str) → All IsPart parts → All IsProperComponent (rest_components parts)
unfolding rest_components
rest_components-All [] h = tt
rest_components-All (part ∷ parts) (h, hs) =
    let rest = rest_components-All parts hs in
    elim (Bool-cases (part == [])) [
      | inl e ↦ rw e rest
      | inr ne_empty ↦ elim (Bool-cases (part == (dot ∷ []))) [
        | inl e ↦ rw (ne_empty, e) rest
        | inr ne_current ↦ elim (Bool-cases (part == (dot ∷ dot ∷ []))) [
          | inl e ↦ rw (ne_empty, ne_current, e) (tt, rest)
          | inr ne_parent ↦
              rw (ne_empty, ne_current, ne_parent)
                (
                  (
                    record {
                      ne_empty = λ e. ground (arith, ne_empty, list_beq_iff part [], e);
                      ne_current = λ e. ground (arith, ne_current, list_beq_iff part (dot ∷ []), e);
                      ne_parent =
                          λ e. ground (arith, ne_parent, list_beq_iff part (dot ∷ dot ∷ []), e);
                    },
                    h,
                  ),
                  rest,
                )
        ]
      ]
    ]

path_components-All : (path : Str) → All IsProperComponent (path_components path)
unfolding path_components
path_components-All path = elim (Bool-cases (starts_with_slash path)) [
  | inl root ↦ rw root (tt, rest_components-All (split path) (All-IsPart-split path))
  | inr relative ↦ rw relative (relative_components-All (split path) (All-IsPart-split path))
]
  where
    relative_components-All :
        (parts : List Str) → All IsPart parts → All IsProperComponent (relative_components parts)
    relative_components-All [] h = tt
    relative_components-All (part ∷ parts) h = elim (Bool-cases (part == (dot ∷ []))) [
      | inl e ↦ rw e (tt, rest_components-All parts h.1)
      | inr e ↦ rw e (rest_components-All (part ∷ parts) h)
    ]

drop_last-All : (names : Names) → All IsProper names → All IsProper (drop_last names)
unfolding drop_last
drop_last-All [] h = tt
drop_last-All (n ∷ []) h = tt
drop_last-All (n ∷ m ∷ names) (h, hs) = (h, drop_last-All (m ∷ names) hs)

normalize_from-All :
    (names : Names) (cs : List Component) (out : Names)
    → All IsProper names
    → All IsProperComponent cs
    → normalize_from names cs ≡ ok out
    → All IsProper out
unfolding normalize_from
normalize_from-All names [] out h p e = let same : names ≡ out = cc in subst (All IsProper) same h
normalize_from-All names (normal c ∷ cs) out h (p, ps) e =
    normalize_from-All (names ++ c ∷ []) cs out (All-append IsProper names (c ∷ []) h (p, tt)) ps e
normalize_from-All names (cur_dir ∷ cs) out h (p, ps) e = normalize_from-All names cs out h ps e
normalize_from-All names (parent_dir ∷ cs) out h (p, ps) e =
    normalize_from-All (drop_last names) cs out (drop_last-All names h) ps (ground arith)
normalize_from-All names (root_dir ∷ cs) out h p e = cc
normalize_from-All names (prefix ∷ cs) out h p e = cc

-- A path that is normalized has a name, and every name is proper.
pub normalize_relative_path-All :
    (path : Str) (names : Names)
    → normalize_relative_path (path_components path) ≡ ok names
    → (names ≢ []) × All IsProper names
unfolding normalize_relative_path
normalize_relative_path-All path names h =
    elim (Result-cases (normalize_from [] (path_components path))) [
      | inl (e, bad) ↦ cc (rw (bad, normalize_relative_path) at h)
      | inr (out, went) ↦
          let h' : (if out == [] then err no_file_component else ok out) ≡ ok names =
            rw (went, normalize_relative_path) at h in
          let same : out ≡ names = ground arith in
          (
            λ e. ground (arith, h', list_beq_iff out [], same, e),
            subst (All IsProper) same (
                normalize_from-All [] (path_components path) out tt (path_components-All path)
                  went),
          )
    ]

rest_components_names :
    (names : Names) → All IsProper names → rest_components names ≡ map normal names
unfolding rest_components
rest_components_names [] h = refl
rest_components_names (n ∷ names) ((proper, _), hs) =
    let ne_empty : (n == []) ≡ false = ground (arith, list_beq_iff n [], proper.ne_empty) in
    let ne_current : (n == (dot ∷ [])) ≡ false =
      ground (arith, list_beq_iff n (dot ∷ []), proper.ne_current) in
    let ne_parent : (n == (dot ∷ dot ∷ [])) ≡ false =
      ground (arith, list_beq_iff n (dot ∷ dot ∷ []), proper.ne_parent) in
    rw (ne_empty, ne_current, ne_parent, rest_components_names names hs) refl

starts_with_slash-join :
    (n : Str) (names : Names) → IsProper n → starts_with_slash (join (n ∷ names)) ≡ false
unfolding join
starts_with_slash-join [] names h = elim (h.0.ne_empty refl) [ ]
starts_with_slash-join (b ∷ bs) [] h = let part = h.1 in ground arith
starts_with_slash-join (b ∷ bs) (m ∷ names) h = let part = h.1 in ground arith

path_components-join :
    (n : Str) (names : Names)
    → All IsProper (n ∷ names)
    → path_components (join (n ∷ names)) ≡ map normal (n ∷ names)
unfolding path_components
path_components-join n names (h, hs) =
    let ne_current : (n == (dot ∷ [])) ≡ false =
      ground (arith, list_beq_iff n (dot ∷ []), h.0.ne_current) in
    rw
      (starts_with_slash-join n names h, split-join n names (parts (n ∷ names) (h, hs)), ne_current)
      (rest_components_names (n ∷ names) (h, hs))
  where
    parts : (ns : Names) → All IsProper ns → All IsPart ns
    parts [] p = tt
    parts (m ∷ ns) (p, ps) = (p.1, parts ns ps)

normalize_from_names :
    (front names : Names) → normalize_from front (map normal names) ≡ ok (front ++ names)
unfolding normalize_from
normalize_from_names front [] = ap ok (sym (append-nil front))
normalize_from_names front (n ∷ names) =
    normalize_from_names (front ++ n ∷ []) names ∙ ap ok (append_assoc front (n ∷ []) names)

-- A path that was normalized is normal: its names, joined with slashes, give the same names again.
pub normalize_relative_path-join :
    (path : Str) (names : Names)
    → normalize_relative_path (path_components path) ≡ ok names
    → normalize_relative_path (path_components (join names)) ≡ ok names
unfolding normalize_relative_path
normalize_relative_path-join path [] h = elim ((normalize_relative_path-All path [] h).0 refl) [ ]
normalize_relative_path-join path (n ∷ names) h =
    let (_, proper) = normalize_relative_path-All path (n ∷ names) h in
    rw (path_components-join n names proper)
      (rw (normalize_from_names [] (n ∷ names), normalize_relative_path) refl)
