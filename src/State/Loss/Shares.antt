-- ===== src/State/Loss/Shares.antt =====
-- The quotas and remainders of crates/state/src/loss.rs: what is left over after the quotas is at most
-- one unit for each entry that has room.
use edet.Base.{
  ℕ, suc, ◌+◌, ◌-◌, ◌*◌, ◌≤◌, ◌<◌, ◌≡◌, refl, ap, ◌∙◌, inl, inr, List, [], ◌∷◌, arith, ltb,
  if◌then◌else◌, Bool-cases, length, All, ◌%◌, ◌/◌, ◌^◌,
}
use edet.Base.Sums.{sum_by}
use native.Mathlib.Nat.{
  mod-eq_of_lt, mod-lt, div-le_of_le-mul, div-add-mod', mul-le-mul_left, lt_of_mul-lt-mul_right,
  le_of_mul-le-mul_right, mul_comm, add-mul,
}
use edet.State.Loss.{total_of, quotas, remainders}

pub share-le : (keep total a : ℕ) → keep ≤ total → a * keep / total ≤ a
share-le keep total a h =
    div-le_of_le-mul total (omega (arith, mul-le-mul_left a h, mul_comm a total))

pub share-lt : (keep total a : ℕ) → keep ≤ total → 0 < a * keep % total → a * keep / total < a
share-lt keep total a h p =
    lt_of_mul-lt-mul_right total
      (omega (arith, div-add-mod' (a * keep) total, mul-le-mul_left a h, p))

pub length-quotas :
    (keep total : ℕ) (amounts : List ℕ) → length (quotas keep total amounts) ≡ length amounts
unfolding quotas
length-quotas keep total [] = refl
length-quotas keep total (a ∷ amounts) = ap suc (length-quotas keep total amounts)

abbrev pub Fits : ℕ → ℕ → List ℕ → Type 0
Fits keep total amounts = All (λ a. a * keep / total < 2 ^ 64) amounts

pub Fits-le :
    (keep total : ℕ) (amounts : List ℕ)
    → keep ≤ total
    → All (λ a. a < 2 ^ 64) amounts
    → Fits keep total amounts
Fits-le keep total [] h f = tt
Fits-le keep total (a ∷ amounts) h f =
    (omega (arith, share-le keep total a h, f.0), Fits-le keep total amounts h f.1)

-- The sum of the remainders, and how many of them are not nothing.
abbrev pub rest_of : List (ℕ × ℕ) → ℕ
rest_of rs = sum_by (λ (x : ℕ × ℕ). x.0) rs

abbrev pub open_of : List (ℕ × ℕ) → ℕ
open_of rs = sum_by (λ (x : ℕ × ℕ). if ltb 0 x.0 then 1 else 0) rs

quotas-total :
    (keep total i : ℕ) (amounts : List ℕ)
    → Fits keep total amounts
    → total_of (quotas keep total amounts) * total + rest_of (remainders keep total i amounts)
      ≡ total_of amounts * keep
unfolding quotas remainders
quotas-total keep total i [] fits = omega arith
quotas-total keep total i (a ∷ amounts) fits =
    let ih = quotas-total keep total (i + 1) amounts fits.1 in
    let q = a * keep / total in
    rw (mod-eq_of_lt fits.0) (
      omega (
        arith,
        ih,
        div-add-mod' (a * keep) total,
        add-mul q (total_of (quotas keep total amounts)) total,
        add-mul a (total_of amounts) keep,
      ))

rest-open :
    (keep total i : ℕ) (amounts : List ℕ)
    → 0 < total
    → rest_of (remainders keep total i amounts) + open_of (remainders keep total i amounts)
      ≤ open_of (remainders keep total i amounts) * total
unfolding remainders
rest-open keep total i [] p = omega arith
rest-open keep total i (a ∷ amounts) p =
    let ih = rest-open keep total (i + 1) amounts p in
    let below = mod-lt (a * keep) p in
    elim (Bool-cases (ltb 0 (a * keep % total))) [
      | inl some_at ↦ rw some_at (
          omega
            (arith, ih, below, add-mul 1 (open_of (remainders keep total (i + 1) amounts)) total))
      | inr none_at ↦ ground (arith, none_at, ih)
    ]

-- What the quotas leave of `keep` is at most one unit for each remainder that is not nothing.
pub left-le_open :
    (keep total : ℕ) (amounts : List ℕ)
    → 0 < total
    → total_of amounts ≡ total
    → Fits keep total amounts
    → (total_of (quotas keep total amounts) ≤ keep)
      × (keep - total_of (quotas keep total amounts) ≤ open_of (remainders keep total 0 amounts))
left-le_open keep total amounts p e fits =
    let spent = total_of (quotas keep total amounts) in
    let opens = open_of (remainders keep total 0 amounts) in
    let whole = quotas-total keep total 0 amounts fits in
    let all : total_of amounts * keep ≡ keep * total = ap (λ x. x * keep) e ∙ mul_comm total keep in
    let under : spent ≤ keep = le_of_mul-le-mul_right {k = total} (omega (arith, whole, all)) p in
    let split : keep ≡ spent + (keep - spent) = omega (arith, under) in
    let parts : keep * total ≡ spent * total + (keep - spent) * total =
      ap (λ x. x * total) split ∙ add-mul spent (keep - spent) total in
    (
      under,
      le_of_mul-le-mul_right {k = total}
          (omega (arith, whole, all, parts, rest-open keep total 0 amounts p)) p,
    )
