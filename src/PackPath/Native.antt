-- ===== src/PackPath/Native.antt =====
-- `from_native` and `to_native` of packpath.rs.
use elfshaker.Prelude.{
  ℕ, ◌≡◌, ◌≢◌, refl, ap, sym, ◌∙◌, arith, none, ok, List, [], ◌∷◌, ◌++◌, map, nat_eq, All,
  append_assoc, append-nil,
}
use elfshaker.PackPath.{
  slash, validate, new, Component, normal, cur_dir, parent_dir, root_dir, prefix, separate,
  append_components, from_native, to_native,
}
use elfshaker.PackPath.Split.{join, join-split, split-join, IsPart, split-cons}
use elfshaker.PackPath.Canonical.{validate_nil, IsName, IsCanonical, validate-IsCanonical}

-- the components behind the first one, each with its slash
abbrev tail_bytes : List (List ℕ) → List ℕ
tail_bytes [] = []
tail_bytes (c ∷ cs) = slash ∷ c ++ tail_bytes cs

join-tail_bytes : (c : List ℕ) (cs : List (List ℕ)) → join (c ∷ cs) ≡ c ++ tail_bytes cs
unfolding join
join-tail_bytes c [] = sym (append-nil c)
join-tail_bytes c (d ∷ cs) = ap (λ r. c ++ slash ∷ r) (join-tail_bytes d cs)

append_components-tail :
    (bytes : List ℕ) (cs : List (List ℕ))
    → bytes ≢ []
    → append_components bytes (map normal cs) ≡ ok (bytes ++ tail_bytes cs)
unfolding append_components
append_components-tail bytes [] h = ap ok (sym (append-nil bytes))
append_components-tail [] (c ∷ cs) h = absurd (h refl)
append_components-tail (b ∷ bs) (c ∷ cs) h =
    append_components-tail (((b ∷ bs) ++ slash ∷ []) ++ c) cs (λ e. cc)
    ∙ ap ok (
        append_assoc ((b ∷ bs) ++ slash ∷ []) c (tail_bytes cs)
        ∙ append_assoc (b ∷ bs) (slash ∷ []) (c ++ tail_bytes cs))

append_components-join :
    (c : List ℕ) (cs : List (List ℕ))
    → c ≢ []
    → append_components [] (map normal (c ∷ cs)) ≡ ok (join (c ∷ cs))
unfolding append_components
append_components-join c cs h = append_components-tail c cs h ∙ ap ok (sym (join-tail_bytes c cs))

from_native_known :
    (path : List Component) (out : List ℕ)
    → append_components [] path ≡ ok out
    → validate out ≡ none
    → from_native path ≡ ok out
unfolding from_native new
from_native_known path out h v = ground arith

-- A canonical path that goes to the file system and comes back is the same.
pub from_native-to_native :
    (path : List ℕ) → validate path ≡ none → from_native (to_native path) ≡ ok path
unfolding to_native
from_native-to_native path h =
    let (c, cs, p) = split-cons path in
    let names : All IsName (c ∷ cs) = rw p at (((validate-IsCanonical path).0 h).names) in
    let whole : join (c ∷ cs) ≡ path = rw p at (join-split path) in
    rw p (
      from_native_known (map normal (c ∷ cs)) path
        (append_components-join c cs names.0.ne_empty ∙ ap ok whole) h)

-- what the standard library promises of the components of a path
abbrev pub IsNative : List Component → Type 0
IsNative [] = Unit
IsNative (normal c ∷ cs) = IsPart c × (c ≢ []) × IsNative cs
IsNative (_ ∷ cs) = IsNative cs

pub normals : List Component → List (List ℕ)
normals [] = []
normals (normal c ∷ cs) = c ∷ normals cs
normals (_ ∷ cs) = normals cs

append_components_all_normal :
    (bytes : List ℕ) (path : List Component) (out : List ℕ)
    → append_components bytes path ≡ ok out
    → path ≡ map normal (normals path)
unfolding append_components normals
append_components_all_normal bytes [] out h = refl
append_components_all_normal bytes (normal c ∷ cs) out h =
    ap (◌∷◌ (normal c)) (append_components_all_normal (separate bytes ++ c) cs out h)
append_components_all_normal bytes (cur_dir ∷ cs) out h = cc
append_components_all_normal bytes (parent_dir ∷ cs) out h = cc
append_components_all_normal bytes (root_dir ∷ cs) out h = cc
append_components_all_normal bytes (prefix ∷ cs) out h = cc

normals-IsPart : (path : List Component) → IsNative path → All IsPart (normals path)
unfolding normals
normals-IsPart [] h = tt
normals-IsPart (normal c ∷ cs) (p, _, h) = (p, normals-IsPart cs h)
normals-IsPart (cur_dir ∷ cs) h = normals-IsPart cs h
normals-IsPart (parent_dir ∷ cs) h = normals-IsPart cs h
normals-IsPart (root_dir ∷ cs) h = normals-IsPart cs h
normals-IsPart (prefix ∷ cs) h = normals-IsPart cs h

from_native_inv :
    (path : List Component) (out : List ℕ)
    → from_native path ≡ ok out
    → (append_components [] path ≡ ok out) × (validate out ≡ none)
unfolding from_native new
from_native_inv path out h = ground arith

to_native-join :
    (path : List Component) (cs : List (List ℕ)) (out : List ℕ)
    → path ≡ map normal cs
    → IsNative path
    → All IsPart cs
    → append_components [] path ≡ ok out
    → validate out ≡ none
    → to_native out ≡ path
unfolding to_native append_components
to_native-join path [] out e n parts h v = cc (rw e at h, v, validate_nil)
to_native-join path (c ∷ cs) out e n parts h v =
    let joined = append_components-join c cs ((rw e at n).1) in
    let same : out ≡ join (c ∷ cs) = cc (rw e at h, joined) in
    rw (same, split-join c cs parts) (sym e)

-- Where the conversion from the file system accepts a path, the result is canonical, and converting
-- it back gives the path that came in. Its `Normal` components are assumed to be non-empty and to
-- hold no slash.
pub to_native-from_native :
    (path : List Component) (out : List ℕ)
    → IsNative path
    → from_native path ≡ ok out
    → (to_native out ≡ path) × IsCanonical out
to_native-from_native path out n h =
    let (joined, v) = from_native_inv path out h in
    (
      to_native-join path (normals path) out (append_components_all_normal [] path out joined) n
          (normals-IsPart path n) joined v,
      (validate-IsCanonical out).0 v,
    )
