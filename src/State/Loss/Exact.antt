-- ===== src/State/Loss/Exact.antt =====
-- `allocate` and the division of one arc in crates/state/src/loss.rs hand out exactly what there is.
use edet.Base.{
  ℕ, zero, suc, ◌+◌, ◌-◌, ◌*◌, ◌≤◌, ◌<◌, ◌≡◌, refl, sym, ap, ◌∙◌, inl, inr, List, [], ◌∷◌, ◌++◌,
  arith, ltb, ◌==◌, if◌then◌else◌, Bool-cases, length, get_or, set, replicate, All, ◌%◌, ◌/◌, ◌^◌,
  length-append, subst, length-replicate, length-set,
}
use edet.Base.Sums.{sum_by}
use native.Mathlib.Nat.{mod-eq_of_lt}
use mathlib.Core.List.{append_assoc}
use edet.State.Loss.{
  total_of, quotas, remainders, sort_remainders, hand_out, allocate, split_amount,
}
use edet.State.Loss.Shares.{share-le, share-lt, Fits, Fits-le, open_of, left-le_open, length-quotas}
use edet.State.Loss.Handed.{
  room_of, hand_out-total, hand_out-le, hand_each-total, remainders-Spread, sort_remainders-Spread,
  sort_remainders-sum, sort_remainders-All,
}

get_or-quotas :
    (keep total : ℕ) (xs : List ℕ) (j : ℕ)
    → get_or (quotas keep total xs) j 0 ≡ (get_or xs j 0 * keep / total) % 2 ^ 64
unfolding quotas
get_or-quotas keep total [] j = omega arith
get_or-quotas keep total (x ∷ xs) zero = refl
get_or-quotas keep total (x ∷ xs) (suc j) = get_or-quotas keep total xs j

get_or-All : (P : ℕ → Type 0) (xs : List ℕ) (j : ℕ) → P 0 → All P xs → P (get_or xs j 0)
get_or-All P [] j z h = z
get_or-All P (x ∷ xs) zero z h = h.0
get_or-All P (x ∷ xs) (suc j) z h = get_or-All P xs j z h.1

get_or-next : (before xs : List ℕ) (a : ℕ) → get_or (before ++ a ∷ xs) (length before) 0 ≡ a
get_or-next [] xs a = refl
get_or-next (b ∷ before) xs a = get_or-next before xs a

-- The remainder is that of the amount at its place, and its place is one of the list.
abbrev IsAt : ℕ → ℕ → List ℕ → ℕ × ℕ → Type 0
IsAt keep total amounts x = (x.0 ≡ get_or amounts x.1 0 * keep % total) × (x.1 < length amounts)

remainders-IsAt :
    (keep total : ℕ) (before xs : List ℕ)
    → All (IsAt keep total (before ++ xs)) (remainders keep total (length before) xs)
unfolding remainders
remainders-IsAt keep total before [] = tt
remainders-IsAt keep total before (a ∷ xs) =
    let place = length-append before (a ∷ []) in
    (
      (
        ap (λ x. x * keep % total) (sym (get_or-next before xs a)),
        omega (arith, length-append before (a ∷ xs)),
      ),
      subst (λ ys. All (IsAt keep total ys) (remainders keep total (length before + 1) xs))
          (append_assoc before (a ∷ []) xs)
          (subst
            (λ n. All (IsAt keep total ((before ++ a ∷ []) ++ xs)) (remainders keep total n xs))
            place (remainders-IsAt keep total (before ++ a ∷ []) xs)),
    )

open-room :
    (keep total : ℕ) (amounts : List ℕ) (rs : List (ℕ × ℕ))
    → keep ≤ total
    → All (λ a. a < 2 ^ 64) amounts
    → All (IsAt keep total amounts) rs
    → open_of rs ≤ room_of amounts (quotas keep total amounts) rs
open-room keep total amounts [] h f e = omega arith
open-room keep total amounts (x ∷ rs) h f e =
    let ih = open-room keep total amounts rs h f e.1 in
    let a = get_or amounts x.1 0 in
    let small : a < 2 ^ 64 = get_or-All (λ a. a < 2 ^ 64) amounts x.1 (omega arith) f in
    let here : get_or (quotas keep total amounts) x.1 0 ≡ a * keep / total =
      get_or-quotas keep total amounts x.1
      ∙ mod-eq_of_lt (omega (arith, share-le keep total a h, small)) in
    ground (arith, ih, here, e.0.0, share-lt keep total a h)

open-le : (rs : List (ℕ × ℕ)) → open_of rs ≤ sum_by (λ (x : ℕ × ℕ). 1) rs
open-le [] = omega arith
open-le (x ∷ rs) = ground (arith, open-le rs)

total_of-replicate : (n : ℕ) → total_of (replicate n 0) ≡ 0
total_of-replicate zero = refl
total_of-replicate (suc n) = omega (arith, total_of-replicate n)

get_or-replicate : (n j : ℕ) → get_or {A = ℕ} (replicate n 0) j 0 ≡ 0
get_or-replicate zero j = refl
get_or-replicate (suc n) zero = refl
get_or-replicate (suc n) (suc j) = get_or-replicate n j

pub allocate-total :
    (amounts : List ℕ) (keep total : ℕ)
    → total_of amounts ≡ total
    → keep ≤ total
    → All (λ a. a < 2 ^ 64) amounts
    → (total_of (allocate amounts keep total) ≡ keep)
      × ((j : ℕ) → get_or (allocate amounts keep total) j 0 ≤ get_or amounts j 0)
unfolding allocate
allocate-total amounts keep total e h f = elim (Bool-cases (total == 0)) [
  | inl none_at ↦ rw none_at (
    ground (arith, none_at, h, total_of-replicate (length amounts)),
    λ j. omega (arith, get_or-replicate (length amounts) j),
  )
  | inr some_at ↦
      let rs = remainders keep total 0 amounts in
      let sorted = sort_remainders rs in
      let out = quotas keep total amounts in
      let left =
        left-le_open keep total amounts (ground (arith, some_at)) e
          (Fits-le keep total amounts h f) in
      let fits : keep - total_of out ≤ room_of amounts out sorted = omega (
        arith,
        left.1,
        open-room keep total amounts rs h f (remainders-IsAt keep total [] amounts),
        sort_remainders-sum
            (λ (x : ℕ × ℕ). if ltb (get_or out x.1 0) (get_or amounts x.1 0) then 1 else 0) rs,
      ) in
      rw some_at (
        omega (
          arith,
          left.0,
          hand_out-total amounts sorted (keep - total_of out) out
              (sort_remainders-Spread rs (remainders-Spread keep total 0 amounts))
              (length-quotas keep total amounts) fits,
        ),
        hand_out-le amounts sorted (keep - total_of out) out λ j.
            let small : get_or amounts j 0 < 2 ^ 64 =
              get_or-All (λ a. a < 2 ^ 64) amounts j (omega arith) f in
            let share = share-le keep total (get_or amounts j 0) h in
            omega (
              arith,
              get_or-quotas keep total amounts j ∙ mod-eq_of_lt (omega (arith, share, small)),
              share,
            ),
      )
]

pub split_amount-total :
    (amount : ℕ) (weights : List ℕ) (total : ℕ)
    → 0 < total
    → total_of weights ≡ total
    → Fits amount total weights
    → total_of (split_amount amount weights total) ≡ amount
unfolding split_amount
split_amount-total amount weights total p e f =
    let rs = remainders amount total 0 weights in
    let sorted = sort_remainders rs in
    let out = quotas amount total weights in
    let left = left-le_open amount total weights p e f in
    let inside =
      sort_remainders-All (λ x. x.1 < length out) rs
        (places-inside rs out (length-quotas amount total weights)
          (remainders-IsAt amount total [] weights)) in
    omega (
      arith,
      left.0,
      hand_each-total sorted (amount - total_of out) out inside
          (omega (arith, left.1, open-le rs, sort_remainders-sum (λ x. 1) rs)),
    )
  where
    places-inside :
        (rs : List (ℕ × ℕ)) (out : List ℕ)
        → length out ≡ length weights
        → All (IsAt amount total weights) rs
        → All (λ (x : ℕ × ℕ). x.1 < length out) rs
    places-inside [] out q h = tt
    places-inside (x ∷ rs) out q h = (omega (arith, q, h.0.1), places-inside rs out q h.1)

length-hand_out :
    (amounts : List ℕ) (rs : List (ℕ × ℕ)) (left : ℕ) (out : List ℕ)
    → length (hand_out amounts rs left out) ≡ length out
unfolding hand_out
length-hand_out amounts [] left out = refl
length-hand_out amounts ((r, i) ∷ rs) left out = ground (
  arith,
  length-hand_out amounts rs left out,
  length-hand_out amounts rs (left - 1) (set out i (get_or out i 0 + 1)),
  length-set out i (get_or out i 0 + 1),
)

pub length-allocate :
    (amounts : List ℕ) (keep total : ℕ) → length (allocate amounts keep total) ≡ length amounts
unfolding allocate
length-allocate amounts keep total = ground (
  arith,
  length-replicate {A = ℕ} (length amounts) 0,
  length-hand_out amounts (sort_remainders (remainders keep total 0 amounts))
      (keep - total_of (quotas keep total amounts)) (quotas keep total amounts),
  length-quotas keep total amounts,
)
