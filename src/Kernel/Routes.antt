-- ===== src/Kernel/Routes.antt =====
-- `Path` (here `Route`), `decompose` and `from_paths` of crates/kernel/src/flow.rs: the routes of a hold.
pub mod Ways
pub mod Sums
pub mod Joined
pub mod Fuel
pub mod Round
use edet.Base.{
  ℕ, zero, suc, ◌+◌, ◌-◌, min, Bool, true, false, Option, none, some, List, [], ◌∷◌, ◌++◌, ◌&&◌,
  length, ltb, ◌==◌, if◌then◌else◌,
}
use edet.Map.{Map, insert, update, amount_at}
use edet.Map.Keys.{Ordered, nat_ordered, pair_ordered}
use edet.Kernel.Held.{Held}

pub record Route : Type 0 where
  pub source : ℕ
  pub arcs : List (ℕ × ℕ)
  pub value : ℕ

-- The four refusals of `decompose`.
pub data Refusal : Type 0 where
  stranded : ℕ → ℕ → ℕ → Refusal
  cycles : ℕ → ℕ → Refusal
  supply_unplaced : Refusal
  sourceless_flow : Refusal

pub data Result (A : Type 0) : Type 0 where
  ok : A → Result A
  err : Refusal → Result A

-- `iter().copied().collect()` into an ordered map: a later entry replaces an earlier one.
unfoldable pub collect : {K : Type 0} ⦃o : Ordered K⦄ → List (K × ℕ) → Map K ℕ → Map K ℕ
collect [] m = m
collect ((k, v) ∷ es) m = collect es (insert k v m)

-- `supply_left.iter().find(|(_, &v)| v > 0)`
unfoldable pub first_source : Map ℕ ℕ → Option (ℕ × ℕ)
first_source [] = none
first_source ((u, v) ∷ m) = if ltb 0 v then some (u, v) else first_source m

-- `edge_left.range((node, 0)..(node + 1, 0)).find(|(_, &w)| w > 0)`
unfoldable pub first_arc : ℕ → Map (ℕ × ℕ) ℕ → Option ((ℕ × ℕ) × ℕ)
first_arc node [] = none
first_arc node (((a, b), w) ∷ m) =
    if a == node && ltb 0 w then some ((a, b), w) else first_arc node m

unfoldable pub contains : ℕ → List ℕ → Bool
contains x [] = false
contains x (y ∷ ys) = if x == y then true else contains x ys

-- The inner loop of `decompose`: the walk from `node` to the debtor, with the arcs so far in
-- order and the least of the source's supply and theirs. The fuel counts the arcs to try.
unfoldable pub route :
    ℕ → Map (ℕ × ℕ) ℕ → ℕ → ℕ → ℕ → List (ℕ × ℕ) → ℕ → List ℕ → Result (List (ℕ × ℕ) × ℕ)
unfolding first_arc contains
route zero left debtor src node arcs value seen = err (cycles src node)
route (suc fuel) left debtor src node arcs value seen =
    let step : Result (List (ℕ × ℕ) × ℕ) = elim (first_arc node left) [
      | none ↦ err (stranded src node value)
      | some ((a, b), w) ↦
          let rest = route fuel left debtor src b (arcs ++ (a, b) ∷ []) (min value w) (b ∷ seen) in
          if contains b seen then err (cycles src b) else rest
    ] in
    if node == debtor then ok (arcs, value) else step

-- `for key in &arcs { *edge_left.get_mut(key) -= value }`
unfoldable pub take_arcs : List (ℕ × ℕ) → ℕ → Map (ℕ × ℕ) ℕ → Map (ℕ × ℕ) ℕ
take_arcs [] value left = left
take_arcs (key ∷ arcs) value left = take_arcs arcs value (update key (λ w. w - value) left)

unfoldable pub any_left : {K : Type 0} → Map K ℕ → Bool
any_left [] = false
any_left ((_, v) ∷ m) = if ltb 0 v then true else any_left m

-- The two checks after the loop.
unfoldable pub finish : Map (ℕ × ℕ) ℕ → Map ℕ ℕ → List Route → Result (List Route)
unfolding any_left
finish edge_left supply_left out =
    if any_left supply_left
    then err supply_unplaced
    else if any_left edge_left
    then err sourceless_flow
    else ok out

-- The outer loop: `budget` rounds at most, one route each.
unfoldable pub routes : ℕ → ℕ → ℕ → Map (ℕ × ℕ) ℕ → Map ℕ ℕ → List Route → Result (List Route)
unfolding first_source route take_arcs finish
routes zero bound debtor edge_left supply_left out = finish edge_left supply_left out
routes (suc budget) bound debtor edge_left supply_left out = elim (first_source supply_left) [
  | none ↦ finish edge_left supply_left out
  | some (src, v) ↦ elim (route bound edge_left debtor src src [] v (src ∷ [])) [
    | err e ↦ err e
    | ok (arcs, value) ↦
        routes budget bound debtor (take_arcs arcs value edge_left)
          (update src (λ s. s - value) supply_left)
          (out ++ record { source = src; arcs = arcs; value = value } ∷ [])
  ]
]

-- `decompose`. A walk enters a node once, so it takes no more arcs than the hold has.
unfoldable pub decompose : Held → ℕ → Result (List Route)
unfolding collect routes
decompose held debtor =
    routes (length held.edges + length held.supply + 1) (length held.edges + 2) debtor
      (collect held.edges []) (collect held.supply []) []

-- `*map.entry(key).or_insert(0) += value`
abbrev pub add_at : {K : Type 0} ⦃o : Ordered K⦄ → K → ℕ → Map K ℕ → Map K ℕ
add_at k value m = insert k (amount_at k m + value) m

unfoldable pub add_arcs : List (ℕ × ℕ) → ℕ → Map (ℕ × ℕ) ℕ → Map (ℕ × ℕ) ℕ
add_arcs [] value m = m
add_arcs (key ∷ arcs) value m = add_arcs arcs value (add_at key value m)

unfoldable pub sum_paths : List Route → Map (ℕ × ℕ) ℕ → Map ℕ ℕ → Held
unfolding add_arcs
sum_paths [] edges supply = record { edges = edges; supply = supply }
sum_paths (p ∷ ps) edges supply =
    sum_paths ps (if p.value == 0 then edges else add_arcs p.arcs p.value edges)
      (if p.value == 0 then supply else add_at p.source p.value supply)

-- `from_paths`
unfoldable pub from_paths : List Route → Held
unfolding sum_paths
from_paths ps = sum_paths ps [] []
