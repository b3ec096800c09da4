-- ===== src/Map/Keys.antt =====
-- The keys of an ordered map: a comparison and its laws, for one number and for two in
-- lexicographic order.
use edet.Base.{ℕ, ◌≡◌, ◌↔◌, Ordering, compare, arith}

pub record Ordered (K : Type 0) : Type 0 where
  pub cmp : K → K → Ordering
  pub eq_iff : (a b : K) → (cmp a b ≡ Ordering.eq) ↔ (a ≡ b)
  pub lt_flip : (a b : K) → (cmp a b ≡ Ordering.lt) ↔ (cmp b a ≡ Ordering.gt)
  pub lt_trans : (a b c : K) → cmp a b ≡ Ordering.lt → cmp b c ≡ Ordering.lt → cmp a c ≡ Ordering.lt

abbrev cmp_pair : ℕ × ℕ → ℕ × ℕ → Ordering
cmp_pair (a, b) (c, d) = elim (compare a c) [
  | Ordering.lt ↦ Ordering.lt
  | Ordering.eq ↦ compare b d
  | Ordering.gt ↦ Ordering.gt
]

pub nat_eq_iff : (a b : ℕ) → (compare a b ≡ Ordering.eq) ↔ (a ≡ b)
nat_eq_iff a b = ground arith

pub nat_lt_flip : (a b : ℕ) → (compare a b ≡ Ordering.lt) ↔ (compare b a ≡ Ordering.gt)
nat_lt_flip a b = ground arith

pub nat_lt_trans :
    (a b c : ℕ) → compare a b ≡ Ordering.lt → compare b c ≡ Ordering.lt → compare a c ≡ Ordering.lt
nat_lt_trans a b c h k = ground arith

pub pair_eq_iff : (a b : ℕ × ℕ) → (cmp_pair a b ≡ Ordering.eq) ↔ (a ≡ b)
pair_eq_iff a b = ground arith

pub pair_lt_flip : (a b : ℕ × ℕ) → (cmp_pair a b ≡ Ordering.lt) ↔ (cmp_pair b a ≡ Ordering.gt)
pair_lt_flip a b = ground arith

pub pair_lt_trans :
    (a b c : ℕ × ℕ)
    → cmp_pair a b ≡ Ordering.lt
    → cmp_pair b c ≡ Ordering.lt
    → cmp_pair a c ≡ Ordering.lt
pair_lt_trans a b c h k = ground arith

instance abbrev pub nat_ordered : Ordered ℕ
nat_ordered = record {
  cmp = compare;
  eq_iff = nat_eq_iff;
  lt_flip = nat_lt_flip;
  lt_trans = nat_lt_trans;
}

instance abbrev pub pair_ordered : Ordered (ℕ × ℕ)
pair_ordered = record {
  cmp = cmp_pair;
  eq_iff = pair_eq_iff;
  lt_flip = pair_lt_flip;
  lt_trans = pair_lt_trans;
}
