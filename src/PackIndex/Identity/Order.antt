-- ===== src/PackIndex/Identity/Order.antt =====
-- Sorting by path in `compute_snapshot_checksum` of packidx.rs: the order of the handles in a
-- snapshot, which is unspecified, does not matter.
use elfshaker.Prelude.{
  suc, ◌≡◌, subst, refl, ap, sym, ◌∙◌, arith, Bool, true, false, ◌||◌, List, [], ◌∷◌, map, length,
  All, AllPairs, ◌==◌, list_eq, nat_eq, list_beq_iff, contains, leb, leb-IsTotalOrder, lex,
  lex-IsTotalOrder, IsTotalOrder, sort, insert_sorted, IsSorted, sort-IsSorted, AllPairs-sort,
  Bool-cases, inl, inr, ==_refl,
}
use elfshaker.PackIndex.Types.{FileEntry}
use elfshaker.PackIndex.Identity.{path_le}
use elfshaker.PackIndex.Identity.Bytes.{Content, content_of, content_eq, content_beq_iff}

abbrev pub content_le : Content → Content → Bool
content_le a b = lex leb a.path b.path

pub path_order : IsTotalOrder (lex leb)
path_order = lex-IsTotalOrder leb leb-IsTotalOrder

map-insert_sorted :
    (x : FileEntry) (xs : List FileEntry)
    → map content_of (insert_sorted path_le x xs)
      ≡ insert_sorted content_le (content_of x) (map content_of xs)
map-insert_sorted x [] = refl
map-insert_sorted x (y ∷ ys) = elim (Bool-cases (path_le x y)) [
  | inl low ↦ rw low refl
  | inr high ↦ rw high (ap (◌∷◌ (content_of y)) (map-insert_sorted x ys))
]

pub map-sort :
    (xs : List FileEntry) → map content_of (sort path_le xs) ≡ sort content_le (map content_of xs)
map-sort [] = refl
map-sort (x ∷ xs) =
    map-insert_sorted x (sort path_le xs)
    ∙ ap (insert_sorted content_le (content_of x)) (map-sort xs)

pub length-sort : (xs : List FileEntry) → length (sort path_le xs) ≡ length xs
length-sort [] = refl
length-sort (x ∷ xs) = length-insert_sorted x (sort path_le xs) ∙ ap suc (length-sort xs)
  where
    length-insert_sorted :
        (y : FileEntry) (ys : List FileEntry)
        → length (insert_sorted path_le y ys) ≡ suc (length ys)
    length-insert_sorted y [] = refl
    length-insert_sorted y (z ∷ zs) = elim (Bool-cases (path_le y z)) [
      | inl low ↦ rw low refl
      | inr high ↦ rw high (ap suc (length-insert_sorted y zs))
    ]

contains-insert_sorted :
    (x z : Content) (xs : List Content)
    → contains (insert_sorted content_le x xs) z ≡ (x == z || contains xs z)
contains-insert_sorted x z [] = refl
contains-insert_sorted x z (y ∷ ys) = elim (Bool-cases (content_le x y)) [
  | inl low ↦ rw low refl
  | inr high ↦ rw high (ground (arith, contains-insert_sorted x z ys))
]

pub contains-sort :
    (z : Content) (xs : List Content) → contains (sort content_le xs) z ≡ contains xs z
contains-sort z [] = refl
contains-sort z (x ∷ xs) =
    contains-insert_sorted x z (sort content_le xs) ∙ ap (λ b. x == z || b) (contains-sort z xs)

abbrev pub Differs : Content → Content → Type 0
Differs a b = (a.path == b.path) ≡ false

-- no two entries have one path
abbrev pub HasDistinctPaths : List Content → Type 0
HasDistinctPaths = AllPairs Differs

pub Differs-sym : (a b : Content) → Differs a b → Differs b a
Differs-sym a b h = ground (arith, list_beq_iff a.path b.path, list_beq_iff b.path a.path)

pub All-contains {ℓ} :
    (P : Content → Type ℓ) (x : Content) (xs : List Content) → All P xs → contains xs x ≡ true → P x
All-contains P x [] a h = absurd (false-ne-true h)
  where
    false-ne-true : false ≡ true → ⊥
    false-ne-true q = cc
All-contains P x (y ∷ ys) (p, a) h = elim (Bool-cases (y == x)) [
  | inl same ↦ subst P ((content_beq_iff y x).0 same) p
  | inr other ↦ All-contains P x ys a (ground (arith, other, h))
]

not_among : (x : Content) (xs : List Content) → All (Differs x) xs → contains xs x ≡ false
not_among x xs a = elim (Bool-cases (contains xs x)) [
  | inr out ↦ out
  | inl there ↦
      let d : Differs x x = All-contains (Differs x) x xs a there in
      let e : (x.path == x.path) ≡ true = ==_refl x.path in cc
]

-- Two sorted lists with different paths and the same members are equal.
pub sorted_unique :
    (xs ys : List Content)
    → IsSorted content_le xs
    → IsSorted content_le ys
    → HasDistinctPaths xs
    → HasDistinctPaths ys
    → ((z : Content) → contains xs z ≡ contains ys z)
    → xs ≡ ys
sorted_unique [] [] s t d e same = refl
sorted_unique [] (y ∷ ys) s t d e same = let h = same y in ground (arith, h, content_beq_iff y y)
sorted_unique (x ∷ xs) [] s t d e same = let h = same x in ground (arith, h, content_beq_iff x x)
sorted_unique (x ∷ xs) (y ∷ ys) (a, s) (b, t) (da, d) (ea, e) same = elim (Bool-cases (x == y)) [
  | inl equal ↦
      let p : x ≡ y = (content_beq_iff x y).0 equal in
      let out_x = not_among x xs da in
      let out_y = not_among y ys ea in
      let tails : (z : Content) → contains xs z ≡ contains ys z = λ z. elim (Bool-cases (x == z)) [
        | inl q ↦
            let r = (content_beq_iff x z).0 q in
            let u : contains xs z ≡ false = subst (λ k. contains xs k ≡ false) r out_x in
            let v : contains ys z ≡ false = subst (λ k. contains ys k ≡ false) (sym p ∙ r) out_y in
            u ∙ sym v
        | inr q ↦
            let k : (y == z) ≡ false = subst (λ c. (c == z) ≡ false) p q in
            let h = same z in ground (arith, h, q, k)
      ] in
      let rest = sorted_unique xs ys s t d e tails in cc
  | inr other ↦
      let k : (y == x) ≡ false = ground (arith, other, content_beq_iff x y, content_beq_iff y x) in
      let hx = same x in
      let hy = same y in
      let in_ys : contains ys x ≡ true = ground (arith, hx, k, content_beq_iff x x) in
      let in_xs : contains xs y ≡ true = ground (arith, hy, other, content_beq_iff y y) in
      let up = All-contains (λ c. content_le y c ≡ true) x ys b in_ys in
      let down = All-contains (λ c. content_le x c ≡ true) y xs a in_xs in
      let p : x.path ≡ y.path = path_order.antisym x.path y.path down up in
      let r : (x.path == y.path) ≡ false = All-contains (Differs x) y xs da in_xs in
      let q : (x.path == y.path) ≡ true = (list_beq_iff x.path y.path).1 p in cc
]

-- what the sort leaves
pub IsSorted-contents :
    (xs : List Content)
    → HasDistinctPaths xs
    → IsSorted content_le (sort content_le xs) × HasDistinctPaths (sort content_le xs)
IsSorted-contents xs d = (
  sort-IsSorted content_le (λ a b c p q. path_order.trans a.path b.path c.path p q)
      (λ a b p. path_order.total a.path b.path p) xs,
  AllPairs-sort content_le Differs Differs-sym xs d,
)
