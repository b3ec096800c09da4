-- ===== src/View/Pending/Stones.antt =====
-- The tombstones of crates/view/src/pending.rs: the set and the order of its digests keep together.
use edet.Base.{
  min, Ordering, ◌≡◌, refl, inl, inr, Bool, true, false, ◌||◌, List, [], ◌∷◌, ◌++◌, arith, ltb,
  Bool-cases, length, length-append,
}
use edet.Bytes.{Bytes}
use edet.Map.{Map, insert, remove, contains_key, IsSorted}
use edet.Map.Laws.{get-insert, get-remove, insert-IsSorted, remove-IsSorted}
use edet.Map.Sizes.{length-insert, length-remove_held}
use edet.Map.Strings.{cmp_bytes, bytes_eq_iff, bytes_ordered}
use edet.View.Pending.{max_tombstones, drop_oldest}

-- Is the digest in the order?
abbrev pub listed : Bytes → List Bytes → Bool
listed d [] = false
listed d (x ∷ xs) = elim (cmp_bytes d x) [ Ordering.eq ↦ true | _ ↦ listed d xs ]

abbrev pub Distinct : List Bytes → Type 0
Distinct [] = Unit
Distinct (x ∷ xs) = (listed x xs ≡ false) × Distinct xs

-- The set of tombstones and their order hold the same digests, each once.
pub record IsOrdered (stones : Map Bytes Unit) (order : List Bytes) : Type 0 where
  pub sorted : IsSorted stones
  pub distinct : Distinct order
  pub same : (d : Bytes) → contains_key d stones ≡ listed d order
  pub count : length stones ≡ length order

pub listed-append :
    (d x : Bytes) (xs : List Bytes) → listed d (xs ++ x ∷ []) ≡ listed d xs || listed d (x ∷ [])
listed-append d x [] = ground arith
listed-append d x (y ∷ xs) = ground (arith, listed-append d x xs)

append-Distinct :
    (x : Bytes) (xs : List Bytes) → listed x xs ≡ false → Distinct xs → Distinct (xs ++ x ∷ [])
append-Distinct x [] h p = (refl, tt)
append-Distinct x (y ∷ xs) h p = ground (
  arith,
  append-Distinct x xs,
  listed-append y x xs,
  bytes_eq_iff x y,
  bytes_eq_iff y x,
  h,
  p.0,
  p.1,
)

pub add-IsOrdered :
    (d : Bytes) (stones : Map Bytes Unit) (order : List Bytes)
    → IsOrdered stones order
    → contains_key d stones ≡ false
    → IsOrdered (insert d tt stones) (order ++ d ∷ [])
add-IsOrdered d stones order h new = record {
  sorted = insert-IsSorted d tt stones h.sorted;
  distinct = append-Distinct d order (ground (arith, h.same d, new)) h.distinct;
  same = λ x. ground (arith, h.same x, listed-append x d order, get-insert x d tt stones);
  count =
      ground
        (arith, length-insert d tt stones h.sorted, h.count, length-append order (d ∷ []), new);
}

pub drop-IsOrdered :
    (d : Bytes) (stones : Map Bytes Unit) (order : List Bytes)
    → IsOrdered stones (d ∷ order)
    → IsOrdered (remove d stones) order
drop-IsOrdered d stones order h = record {
  sorted = remove-IsSorted d stones h.sorted;
  distinct = h.distinct.1;
  same =
      λ x. ground (arith, h.same x, get-remove x d stones h.sorted, bytes_eq_iff x d, h.distinct.0);
  count = ground (arith, h.same d, h.count, length-remove_held d stones, bytes_eq_iff d d);
}

pub drop_oldest-IsOrdered :
    (stones : Map Bytes Unit) (order : List Bytes)
    → IsOrdered stones order
    → IsOrdered (drop_oldest stones order).0 (drop_oldest stones order).1
unfolding drop_oldest
drop_oldest-IsOrdered stones [] h = h
drop_oldest-IsOrdered stones (d ∷ order) h =
    elim (Bool-cases (ltb max_tombstones (length (d ∷ order)))) [
      | inl more ↦
          rw more (drop_oldest-IsOrdered (remove d stones) order (drop-IsOrdered d stones order h))
      | inr enough ↦ rw enough h
    ]

pub length-drop_oldest :
    (stones : Map Bytes Unit) (order : List Bytes)
    → length (drop_oldest stones order).1 ≡ min max_tombstones (length order)
unfolding drop_oldest
length-drop_oldest stones [] = omega arith
length-drop_oldest stones (d ∷ order) = ground (arith, length-drop_oldest (remove d stones) order)

-- What is left was there before.
pub contains_key-drop_oldest :
    (stones : Map Bytes Unit) (order : List Bytes) (d : Bytes)
    → IsOrdered stones order
    → contains_key d (drop_oldest stones order).0 ≡ true
    → contains_key d stones ≡ true
unfolding drop_oldest
contains_key-drop_oldest stones [] d h g = g
contains_key-drop_oldest stones (x ∷ order) d h g = ground (
  arith,
  g,
  contains_key-drop_oldest (remove x stones) order d (drop-IsOrdered x stones order h),
  get-remove d x stones h.sorted,
)
