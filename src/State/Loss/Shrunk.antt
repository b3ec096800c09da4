-- ===== src/State/Loss/Shrunk.antt =====
-- `split_edges` and `shrink` of crates/state/src/loss.rs: on either way the two parts are the whole.
use edet.Base.{
  ℕ, suc, ◌+◌, ◌-◌, ◌≤◌, ◌<◌, ◌≡◌, refl, sym, ap, ◌∙◌, inl, inr, List, [], ◌∷◌, ◌++◌, arith, length,
  get_or, set, All, length-set, map, ◌^◌, subst, ◌/◌,
}
use edet.Base.Sums.{sum_by}
use native.Mathlib.Nat.{mul_comm}
use edet.Map.{IsSorted}
use edet.Map.Amounts.{charged}
use edet.Map.Keys.{Ordered, nat_ordered, pair_ordered}
use edet.Kernel.Held.{Held, amount}
use edet.Kernel.Routes.{decompose}
use edet.State.Loss.{
  total_of, Arcs, hand_each, quotas, split_amount, push_each, split_each, split_edges, cut_supply,
  shrink, allocate, sort_remainders, remainders,
}
use edet.Kernel.Routes.Sums.{Result-cases}
use edet.State.Loss.Cut.{Parts}
use edet.State.Loss.Divided.{Divides, kept_of-Parts, cut_each-Divides}
use edet.State.Loss.Exact.{split_amount-total}
use edet.State.Loss.Shares.{Fits, share-le, length-quotas}

length-hand_each :
    (rs : List (ℕ × ℕ)) (left : ℕ) (out : List ℕ) → length (hand_each rs left out) ≡ length out
unfolding hand_each
length-hand_each [] left out = refl
length-hand_each ((r, i) ∷ rs) left out = ground (
  arith,
  length-hand_each rs (left - 1) (set out i (get_or out i 0 + 1)),
  length-set out i (get_or out i 0 + 1),
)

length-split_amount :
    (n : ℕ) (weights : List ℕ) (total : ℕ) → length (split_amount n weights total) ≡ length weights
unfolding split_amount
length-split_amount n weights total =
    length-hand_each (sort_remainders (remainders n total 0 weights))
      (n - total_of (quotas n total weights)) (quotas n total weights)
    ∙ length-quotas n total weights

charged-append :
    {K : Type 0} ⦃o : Ordered K⦄ (k : K) (xs ys : List (K × ℕ))
    → charged k (xs ++ ys) ≡ charged k xs + charged k ys
charged-append k [] ys = omega arith
charged-append k ((j, v) ∷ xs) ys = ground (arith, charged-append k xs ys)

-- What all the pieces hold of an arc.
abbrev pub of_arc : ℕ × ℕ → List Arcs → ℕ
of_arc key pieces = sum_by (λ piece. charged key piece) pieces

length-push_each :
    (k : ℕ × ℕ) (alloc : List ℕ) (out : List Arcs)
    → length alloc ≡ length out
    → length (push_each k alloc out) ≡ length out
unfolding push_each
length-push_each k [] out e = refl
length-push_each k (a ∷ alloc) [] e = refl
length-push_each k (a ∷ alloc) (piece ∷ out) e =
    ap suc (length-push_each k alloc out (omega (arith, e)))

of_arc-push_each :
    (key k : ℕ × ℕ) (alloc : List ℕ) (out : List Arcs)
    → length alloc ≡ length out
    → of_arc key (push_each k alloc out) ≡ of_arc key out + charged key ((k, total_of alloc) ∷ [])
unfolding push_each
of_arc-push_each key k [] out e = ground arith
of_arc-push_each key k (a ∷ alloc) [] e = absurd (omega (arith, e))
of_arc-push_each key k (a ∷ alloc) (piece ∷ out) e =
    let ih = of_arc-push_each key k alloc out (omega (arith, e)) in
    let grown = charged-append key piece ((k, a) ∷ []) in ground (arith, ih, grown)

-- Of every arc the pieces hold together what the edges do.
split_each-whole :
    (key : ℕ × ℕ) (edges : Arcs) (weights : List ℕ) (total : ℕ) (out : List Arcs)
    → 0 < total
    → total_of weights ≡ total
    → All (λ (e : (ℕ × ℕ) × ℕ). Fits e.1 total weights) edges
    → length weights ≡ length out
    → (of_arc key (split_each edges weights total out) ≡ of_arc key out + charged key edges)
      × (length (split_each edges weights total out) ≡ length out)
unfolding split_each
split_each-whole key [] weights total out p e f l = (omega arith, refl)
split_each-whole key ((k, n) ∷ edges) weights total out p e f l =
    let alloc = split_amount n weights total in
    let same : length alloc ≡ length out = length-split_amount n weights total ∙ l in
    let kept = length-push_each k alloc out same in
    let ih =
      split_each-whole key edges weights total (push_each k alloc out) p e f.1 (l ∙ sym kept) in
    let here = of_arc-push_each key k alloc out same in
    let whole = split_amount-total n weights total p e f.0 in
    (ground (arith, ih.0, here, whole), ih.1 ∙ kept)

two-pieces :
    (key : ℕ × ℕ) (pieces : List Arcs)
    → length pieces ≡ 2
    → charged key (get_or pieces 0 []) + charged key (get_or pieces 1 []) ≡ of_arc key pieces
two-pieces key [] e = absurd (omega (arith, e))
two-pieces key (x ∷ []) e = absurd (omega (arith, e))
two-pieces key (x ∷ y ∷ []) e = omega arith
two-pieces key (x ∷ y ∷ z ∷ zs) e = absurd (omega (arith, e))

Fits-pair :
    (keep total n : ℕ) → keep ≤ total → n < 2 ^ 64 → Fits n total (keep ∷ (total - keep) ∷ [])
Fits-pair keep total n h f =
    let first = share-le keep total n h in
    let second = share-le (total - keep) total n (omega arith) in
    (
      subst (λ x. x / total < 2 ^ 64) (mul_comm n keep) (omega (arith, first, f)),
      (subst (λ x. x / total < 2 ^ 64) (mul_comm n (total - keep)) (omega (arith, second, f)), tt),
    )

Fits-edges :
    (keep total : ℕ) (edges : Arcs)
    → keep ≤ total
    → All (λ (e : (ℕ × ℕ) × ℕ). e.1 < 2 ^ 64) edges
    → All (λ (e : (ℕ × ℕ) × ℕ). Fits e.1 total (keep ∷ (total - keep) ∷ [])) edges
Fits-edges keep total [] h f = tt
Fits-edges keep total (e ∷ edges) h f =
    (Fits-pair keep total e.1 h f.0, Fits-edges keep total edges h f.1)

-- The supply side is divided at what is kept of each underwriter.
cut_supply-whole :
    (supply : List (ℕ × ℕ)) (kept : List ℕ)
    → Parts kept (map (λ (e : ℕ × ℕ). e.1) supply)
    → ((u : ℕ)
        → charged u (cut_supply supply kept).0 + charged u (cut_supply supply kept).1
          ≡ charged u supply)
      × (sum_by (λ (e : ℕ × ℕ). e.1) (cut_supply supply kept).0 ≡ total_of kept)
      × (sum_by (λ (e : ℕ × ℕ). e.1) (cut_supply supply kept).1 + total_of kept
          ≡ sum_by (λ (e : ℕ × ℕ). e.1) supply)
unfolding cut_supply
cut_supply-whole [] [] h = (λ u. refl, refl, refl)
cut_supply-whole [] (k ∷ kept) h = absurd (omega (arith, h.0))
cut_supply-whole ((u, had) ∷ supply) [] h = absurd (omega (arith, h.0))
cut_supply-whole ((u, had) ∷ supply) (k ∷ kept) h =
    let (sides, stands, back) =
      cut_supply-whole supply kept (omega (arith, h.0), λ j. h.1 (suc j)) in
    (λ x. ground (arith, sides x, h.1 0), ground (arith, stands), ground (arith, back, h.1 0))

-- A hold that does not decompose is divided arc by arc.
cut_supply-Divides :
    (held : Held) (keep : ℕ)
    → IsSorted held.edges
    → All (λ (e : (ℕ × ℕ) × ℕ). e.1 < 2 ^ 64) held.edges
    → amount held < 2 ^ 64
    → 0 < amount held
    → keep ≤ amount held
    → let kept = allocate (map (λ (e : ℕ × ℕ). e.1) held.supply) keep (amount held) in
      let pieces = split_edges held.edges (keep ∷ (amount held - keep) ∷ []) (amount held) in
      Divides held keep (
        record { edges = get_or pieces 0 []; supply = (cut_supply held.supply kept).0 },
        record { edges = get_or pieces 1 []; supply = (cut_supply held.supply kept).1 },
      )
unfolding split_edges amount
cut_supply-Divides held keep he fe fits some_at less =
    let total = amount held in
    let weights = keep ∷ (total - keep) ∷ [] in
    let parts = kept_of-Parts held keep less fits in
    let (sides, stands, back) =
      cut_supply-whole held.supply (allocate (map (λ (e : ℕ × ℕ). e.1) held.supply) keep total)
        parts.0 in
    let pieces = split_edges held.edges weights total in
    let split : (key : ℕ × ℕ) → (of_arc key pieces ≡ charged key held.edges) × (length pieces ≡ 2) =
      λ key.
        let whole =
          split_each-whole key held.edges weights total ([] ∷ [] ∷ []) some_at (omega (arith, less))
            (Fits-edges keep total held.edges less fe) refl in
        (omega (arith, whole.0), whole.1) in
    record {
      arcs = λ key.
          two-pieces key (split_edges held.edges weights total) (split key).1 ∙ (split key).0;
      sources = sides;
      stands = stands ∙ parts.1;
      returned = omega (arith, back, parts.1);
    }

-- Shrinking a hold divides it exactly, whether it decomposes into routes or not: what stands and what
-- is given back are together the hold, on every arc and of every underwriter, and what stands is the
-- amount asked for, if the hold is in order, not empty and of 64-bit amounts, and holds that much.
pub shrink-Divides :
    (held : Held) (debtor keep : ℕ)
    → IsSorted held.edges
    → IsSorted held.supply
    → All (λ (e : (ℕ × ℕ) × ℕ). e.1 < 2 ^ 64) held.edges
    → amount held < 2 ^ 64
    → 0 < amount held
    → keep ≤ amount held
    → Divides held keep (shrink held debtor keep (amount held))
unfolding shrink
shrink-Divides held debtor keep he hs fe fits some_at less =
    elim (Result-cases (decompose held debtor)) [
      | inl (why, bad) ↦ rw (bad, shrink) (cut_supply-Divides held keep he fe fits some_at less)
      | inr (paths, good) ↦
          rw (good, shrink) (cut_each-Divides held debtor keep paths he hs less fits good)
    ]
