-- ===== src/State/Loss.antt =====
-- `allocate`, `split_edges` and `shrink` of crates/state/src/loss.rs: the exact division of a hold.
pub mod Shares
pub mod Handed
pub mod Exact
pub mod Cut
pub mod Grouped
pub mod Divided
pub mod Shrunk
use edet.Base.{
  ℕ, ◌+◌, ◌-◌, ◌*◌, min, Ordering, Bool, true, false, List, [], ◌∷◌, ◌++◌, ltb, leb, ◌==◌,
  if◌then◌else◌, length, get_or, set, replicate, take, compare, map, ◌%◌, ◌/◌, ◌^◌,
}
use edet.Base.Sums.{sum_by}
use edet.Kernel.Held.{Held}
use edet.Kernel.Routes.{Route, ok, err, decompose, from_paths}

abbrev pub total_of : List ℕ → ℕ
total_of xs = sum_by (λ x. x) xs

-- `(num / total as u128) as u64` of every share.
unfoldable pub quotas : ℕ → ℕ → List ℕ → List ℕ
quotas keep total [] = []
quotas keep total (a ∷ amounts) = (a * keep / total) % 2 ^ 64 ∷ quotas keep total amounts

-- The remainders with their places, from place `i` on.
unfoldable pub remainders : ℕ → ℕ → ℕ → List ℕ → List (ℕ × ℕ)
remainders keep total i [] = []
remainders keep total i (a ∷ amounts) =
    (a * keep % total, i) ∷ remainders keep total (i + 1) amounts

-- Not after in the order of `sort_by`: by remainder, the largest first, then by place.
abbrev pub comes_first : ℕ × ℕ → ℕ × ℕ → Bool
comes_first (r, i) (s, j) = elim (compare s r) [
  | Ordering.lt ↦ true
  | Ordering.eq ↦ leb i j
  | Ordering.gt ↦ false
]

unfoldable pub place_remainder : ℕ × ℕ → List (ℕ × ℕ) → List (ℕ × ℕ)
place_remainder x [] = x ∷ []
place_remainder x (y ∷ ys) =
    let rest = place_remainder x ys in if comes_first x y then x ∷ y ∷ ys else y ∷ rest

-- `remainders.sort_by(…)`
unfoldable pub sort_remainders : List (ℕ × ℕ) → List (ℕ × ℕ)
unfolding place_remainder
sort_remainders [] = []
sort_remainders (x ∷ xs) = place_remainder x (sort_remainders xs)

-- The loop of `allocate` that gives the units left over, one to an entry that has room.
unfoldable pub hand_out : List ℕ → List (ℕ × ℕ) → ℕ → List ℕ → List ℕ
hand_out amounts [] left out = out
hand_out amounts ((_, i) ∷ rest) left out =
    let given = hand_out amounts rest (left - 1) (set out i (get_or out i 0 + 1)) in
    let passed = hand_out amounts rest left out in
    if left == 0 then out else if ltb (get_or out i 0) (get_or amounts i 0) then given else passed

unfoldable pub allocate : List ℕ → ℕ → ℕ → List ℕ
unfolding quotas remainders sort_remainders hand_out
allocate amounts keep total =
    let out = quotas keep total amounts in
    if total == 0
    then replicate (length amounts) 0
    else hand_out amounts (sort_remainders (remainders keep total 0 amounts)) (keep - total_of out)
        out

-- The loop of `split_edges` that gives the units left over, one to an entry.
unfoldable pub hand_each : List (ℕ × ℕ) → ℕ → List ℕ → List ℕ
hand_each [] left out = out
hand_each ((_, i) ∷ rest) left out =
    let given = hand_each rest (left - 1) (set out i (get_or out i 0 + 1)) in
    if left == 0 then out else given

-- The division of one arc among the weights.
unfoldable pub split_amount : ℕ → List ℕ → ℕ → List ℕ
unfolding quotas remainders sort_remainders hand_each
split_amount amount weights total =
    let alloc = quotas amount total weights in
    hand_each (sort_remainders (remainders amount total 0 weights)) (amount - total_of alloc) alloc

abbrev pub Arcs : Type 0
Arcs = List ((ℕ × ℕ) × ℕ)

-- `if a > 0 { out[i].push((key, a)) }` for every piece.
unfoldable pub push_each : ℕ × ℕ → List ℕ → List Arcs → List Arcs
push_each key [] out = out
push_each key (a ∷ alloc) [] = []
push_each key (a ∷ alloc) (piece ∷ out) =
    (if ltb 0 a then piece ++ (key, a) ∷ [] else piece) ∷ push_each key alloc out

unfoldable pub split_each : Arcs → List ℕ → ℕ → List Arcs → List Arcs
unfolding split_amount push_each
split_each [] weights total out = out
split_each ((key, amount) ∷ edges) weights total out =
    split_each edges weights total (push_each key (split_amount amount weights total) out)

unfoldable pub split_edges : Arcs → List ℕ → ℕ → List Arcs
unfolding split_each
split_edges edges weights total = split_each edges weights total (replicate (length weights) [])

-- `paths.iter().filter(|p| p.source == u)`
unfoldable pub of_source : ℕ → List Route → List Route
of_source u [] = []
of_source u (p ∷ ps) = let rest = of_source u ps in if p.source == u then p ∷ rest else rest

-- The routes of one underwriter, cut at what is kept of each: those that stand and those given back.
unfoldable pub cut_routes : List Route → List ℕ → List Route × List Route
cut_routes [] take = ([], [])
cut_routes (p ∷ ps) [] = ([], [])
cut_routes (p ∷ ps) (t ∷ take) =
    let (still, back) = cut_routes ps take in
    (
      if ltb 0 t then record p { value = t } ∷ still else still,
      if ltb t p.value then record p { value = p.value - t } ∷ back else back,
    )

-- The loop of `shrink` over the underwriters, with what is kept of each.
unfoldable pub cut_each : List Route → List (ℕ × ℕ) → List ℕ → List Route × List Route
unfolding of_source allocate cut_routes
cut_each paths [] kept = ([], [])
cut_each paths (_ ∷ supply) [] = ([], [])
cut_each paths ((u, _) ∷ supply) (k ∷ kept) =
    let mine = of_source u paths in
    let vals = map (λ p. p.value) mine in
    let mine_total = total_of vals in
    let (still, back) = cut_routes mine (allocate vals (min k mine_total) mine_total) in
    let (still', back') = cut_each paths supply kept in (still ++ still', back ++ back')

-- The supply side where the hold does not decompose.
unfoldable pub cut_supply : List (ℕ × ℕ) → List ℕ → List (ℕ × ℕ) × List (ℕ × ℕ)
cut_supply [] kept = ([], [])
cut_supply (_ ∷ supply) [] = ([], [])
cut_supply ((u, had) ∷ supply) (k ∷ kept) =
    let (still, back) = cut_supply supply kept in
    (if ltb 0 k then (u, k) ∷ still else still, if ltb k had then (u, had - k) ∷ back else back)

-- `shrink`: what still stands, and what is given back.
unfoldable pub shrink : Held → ℕ → ℕ → ℕ → Held × Held
unfolding allocate cut_each cut_supply split_edges
shrink held debtor keep total =
    let kept = allocate (map (λ e. e.1) held.supply) keep total in
    elim (decompose held debtor) [
      | ok paths ↦
          let (still, back) = cut_each paths held.supply kept in (from_paths still, from_paths back)
      | err _ ↦
          let pieces = split_edges held.edges (keep ∷ (total - keep) ∷ []) total in
          let (still, back) = cut_supply held.supply kept in
          (
            record { edges = get_or pieces 0 []; supply = still },
            record { edges = get_or pieces 1 []; supply = back },
          )
    ]
