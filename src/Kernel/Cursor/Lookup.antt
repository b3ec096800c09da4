-- ===== src/Kernel/Cursor/Lookup.antt =====
-- The cursor against a lookup.
use edet.Base.{ℕ, ◌≡◌, refl, [], ◌∷◌, Ordering, arith, inl, inr}
use edet.Map.{get, IsSorted, Above, amount_at}
use edet.Map.Keys.{pair_ordered}
use edet.Map.Laws.{get-Above, Above-mono, cmp_cases}
use edet.Kernel.Cursor.{ReservedCursor, at}

at-Above : (j key : ℕ × ℕ) (c : ReservedCursor) → Above j c → Above j (at key c).1
unfolding at
at-Above j key [] h = tt
at-Above j key ((k, v) ∷ c) h = ground (arith, at-Above j key c h.1)

at-IsSorted : (key : ℕ × ℕ) (c : ReservedCursor) → IsSorted c → IsSorted (at key c).1
unfolding at
at-IsSorted key [] h = tt
at-IsSorted key ((k, v) ∷ c) h = ground (arith, at-IsSorted key c h.1)

at-amount : (key : ℕ × ℕ) (c : ReservedCursor) → IsSorted c → (at key c).0 ≡ amount_at key c
unfolding at
at-amount key [] h = refl
at-amount key ((k, v) ∷ c) h = elim (cmp_cases key k) [
  | inl below ↦
      ground (arith, get-Above key c (Above-mono key k c below h.0), pair_ordered.lt_flip key k)
  | inr (inl (eq, same)) ↦ ground (arith, pair_ordered.eq_iff k key, same)
  | inr (inr (gt, lt)) ↦ ground (arith, at-amount key c h.1, lt)
]

at-later :
    (key j : ℕ × ℕ) (c : ReservedCursor)
    → pair_ordered.cmp key j ≡ Ordering.lt
    → get j (at key c).1 ≡ get j c
unfolding at
at-later key j [] e = refl
at-later key j ((k, v) ∷ c) e = elim (cmp_cases k key) [
  | inl below ↦ ground (
    arith,
    at-later key j c e,
    below,
    pair_ordered.lt_trans k key j below e,
    pair_ordered.lt_flip k j,
  )
  | inr (inl (eq, same)) ↦ ground (arith, eq)
  | inr (inr (gt, lt)) ↦ ground (arith, gt)
]

-- On an ordered reservation map the cursor reads for a key just what a lookup reads, and it goes
-- on ordered, with every later key's entry still ahead of it.
pub at-lookup :
    (key : ℕ × ℕ) (c : ReservedCursor)
    → IsSorted c
    → ((at key c).0 ≡ amount_at key c)
      × IsSorted (at key c).1
      × ((j : ℕ × ℕ) → pair_ordered.cmp key j ≡ Ordering.lt → get j (at key c).1 ≡ get j c)
at-lookup key c h = (at-amount key c h, at-IsSorted key c h, λ j e. at-later key j c e)
