-- ===== src/Map/Strings.antt =====
-- Byte strings as keys, in lexicographic order.
pub mod Numbers
use edet.Base.{Ordering, ◌≡◌, refl, ◌↔◌, [], ◌∷◌, arith, compare}
use edet.Map.Keys.{Ordered}
use edet.Bytes.{Bytes}

abbrev pub cmp_bytes : Bytes → Bytes → Ordering
cmp_bytes [] [] = Ordering.eq
cmp_bytes [] (y ∷ ys) = Ordering.lt
cmp_bytes (x ∷ xs) [] = Ordering.gt
cmp_bytes (x ∷ xs) (y ∷ ys) = elim (compare x y) [
  | Ordering.lt ↦ Ordering.lt
  | Ordering.eq ↦ cmp_bytes xs ys
  | Ordering.gt ↦ Ordering.gt
]

pub bytes_eq_iff : (a b : Bytes) → (cmp_bytes a b ≡ Ordering.eq) ↔ (a ≡ b)
bytes_eq_iff [] [] = ground arith
bytes_eq_iff [] (y ∷ ys) = ground arith
bytes_eq_iff (x ∷ xs) [] = ground arith
bytes_eq_iff (x ∷ xs) (y ∷ ys) = ground (arith, bytes_eq_iff xs ys)

pub bytes_lt_flip : (a b : Bytes) → (cmp_bytes a b ≡ Ordering.lt) ↔ (cmp_bytes b a ≡ Ordering.gt)
bytes_lt_flip [] [] = ground arith
bytes_lt_flip [] (y ∷ ys) = ground arith
bytes_lt_flip (x ∷ xs) [] = ground arith
bytes_lt_flip (x ∷ xs) (y ∷ ys) = ground (arith, bytes_lt_flip xs ys)

pub bytes_lt_trans :
    (a b c : Bytes)
    → cmp_bytes a b ≡ Ordering.lt
    → cmp_bytes b c ≡ Ordering.lt
    → cmp_bytes a c ≡ Ordering.lt
bytes_lt_trans [] [] c h k = ground (arith, h)
bytes_lt_trans [] (y ∷ ys) [] h k = ground (arith, k)
bytes_lt_trans [] (y ∷ ys) (z ∷ zs) h k = refl
bytes_lt_trans (x ∷ xs) [] c h k = ground (arith, h)
bytes_lt_trans (x ∷ xs) (y ∷ ys) [] h k = ground (arith, k)
bytes_lt_trans (x ∷ xs) (y ∷ ys) (z ∷ zs) h k = ground (arith, h, k, bytes_lt_trans xs ys zs)

instance abbrev pub bytes_ordered : Ordered Bytes
bytes_ordered = record {
  cmp = cmp_bytes;
  eq_iff = bytes_eq_iff;
  lt_flip = bytes_lt_flip;
  lt_trans = bytes_lt_trans;
}
