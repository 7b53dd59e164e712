-- ===== src/Repo/Policy/Prefixes.antt =====
-- Prefixes and the order of keys: what lies between a key and its extension extends the key.
use elfshaker.Prelude.{
  ◌≡◌, refl, arith, true, false, List, [], ◌∷◌, list_eq, nat_eq, list_beq_iff, lex, leb,
  lex-IsTotalOrder, leb-IsTotalOrder, IsTotalOrder, All, Bool-cases, inl, inr,
}
use elfshaker.Repo.Policy.{Key, PathBytes, starts_with, key_le}

-- the order of the components, and that of the keys
abbrev pub byte_order : IsTotalOrder (lex leb)
byte_order = lex-IsTotalOrder leb leb-IsTotalOrder

abbrev pub key_order : IsTotalOrder (lex (lex leb))
key_order = lex-IsTotalOrder (lex leb) byte_order

pub starts_with_refl : (k : Key) → starts_with k k ≡ true
starts_with_refl [] = refl
starts_with_refl (c ∷ k) = ground (arith, list_beq_iff c c, starts_with_refl k)

pub starts_with-le : (x z : Key) → starts_with z x ≡ true → lex (lex leb) x z ≡ true
starts_with-le [] z h = refl
starts_with-le (p ∷ x) [] h = cc
starts_with-le (p ∷ x) (c ∷ z) h =
    ground (arith, list_beq_iff c p, list_beq_iff p c, starts_with-le x z)

pub starts_with_between :
    (x y z : Key)
    → starts_with z x ≡ true
    → lex (lex leb) x y ≡ true
    → lex (lex leb) y z ≡ true
    → starts_with y x ≡ true
starts_with_between [] y z h a b = refl
starts_with_between (p ∷ x) [] z h a b = cc
starts_with_between (p ∷ x) (q ∷ y) [] h a b = cc
starts_with_between (p ∷ x) (q ∷ y) (c ∷ z) h a b = ground (
  arith,
  list_beq_iff p q,
  list_beq_iff q c,
  list_beq_iff c p,
  list_beq_iff q p,
  byte_order.antisym p q,
  starts_with_between x y z,
)

-- neither key is a prefix of the other, nor are they equal
pub record Disjoint (a b : Key × PathBytes) : Type 0 where
  pub left : starts_with a.0 b.0 ≡ false
  pub right : starts_with b.0 a.0 ≡ false

pub Disjoint-symm : (a b : Key × PathBytes) → Disjoint a b → Disjoint b a
Disjoint-symm a b d = record { left = d.right; right = d.left }

-- Of two keys in order, a conflict is a prefix the right way round.
pub Disjoint-of_le :
    (a b : Key × PathBytes) → key_le a b ≡ true → starts_with b.0 a.0 ≡ false → Disjoint a b
Disjoint-of_le a b le h = record {
  left = elim (Bool-cases (starts_with a.0 b.0)) [
    | inl back ↦
        let same : a.0 ≡ b.0 = key_order.antisym a.0 b.0 le (starts_with-le b.0 a.0 back) in
        cc (rw same at h, starts_with_refl b.0)
    | inr fine ↦ fine
  ];
  right = h;
}

-- In a sorted list a key that is no prefix of its neighbour is no prefix of any key behind it.
pub All-Disjoint :
    (a b : Key × PathBytes) (rest : List (Key × PathBytes))
    → key_le a b ≡ true
    → All (λ c. key_le a c ≡ true) rest
    → All (λ c. key_le b c ≡ true) rest
    → starts_with b.0 a.0 ≡ false
    → All (Disjoint a) rest
All-Disjoint a b [] le la lb h = tt
All-Disjoint a b (c ∷ rest) le (la, las) (lb, lbs) h = (
  Disjoint-of_le a c la (elim (Bool-cases (starts_with c.0 a.0)) [
    | inl extends ↦ cc (h, starts_with_between a.0 b.0 c.0 extends le lb)
    | inr fine ↦ fine
  ]),
  All-Disjoint a b rest le las lbs h,
)
