-- ===== src/Kernel/Routes/Round.antt =====
-- `from_paths` of crates/kernel/src/flow.rs joins the routes of `decompose` into the hold again.
use edet.Base.{ℕ, ◌+◌, ◌<◌, ◌≡◌, inl, inr, List, [], ◌∷◌, arith, ◌==◌, Bool-cases, ap₂}
use edet.Map.{Map, amount_at, IsSorted}
use edet.Map.Keys.{nat_ordered, pair_ordered}
use edet.Map.Amounts.{IsPositive, insert-IsPositive, amounts_ext}
use edet.Kernel.Held.{Held}
use edet.Kernel.Routes.{Route, ok, decompose, add_at, add_arcs, sum_paths, from_paths}
use edet.Kernel.Routes.Joined.{from_paths-amounts, from_paths-Joins}
use edet.Kernel.Routes.Sums.{decompose-Carries}

add_arcs-IsPositive :
    (arcs : List (ℕ × ℕ)) (v : ℕ) (m : Map (ℕ × ℕ) ℕ)
    → 0 < v
    → IsPositive m
    → IsPositive (add_arcs arcs v m)
unfolding add_arcs
add_arcs-IsPositive [] v m p h = h
add_arcs-IsPositive (a ∷ arcs) v m p h =
    add_arcs-IsPositive arcs v (add_at a v m) p
      (insert-IsPositive a (amount_at a m + v) m (omega arith) h)

sum_paths-IsPositive :
    (rs : List Route) (edges : Map (ℕ × ℕ) ℕ) (supply : Map ℕ ℕ)
    → IsPositive edges
    → IsPositive supply
    → IsPositive (sum_paths rs edges supply).edges × IsPositive (sum_paths rs edges supply).supply
unfolding sum_paths
sum_paths-IsPositive [] edges supply he hs = (he, hs)
sum_paths-IsPositive (r ∷ rs) edges supply he hs = elim (Bool-cases (r.value == 0)) [
  | inl none_at ↦ rw (none_at, sum_paths) (sum_paths-IsPositive rs edges supply he hs)
  | inr some_at ↦
      let some : 0 < r.value = ground (arith, some_at) in
      rw (some_at, sum_paths)
        (sum_paths-IsPositive rs (add_arcs r.arcs r.value edges) (add_at r.source r.value supply)
          (add_arcs-IsPositive r.arcs r.value edges some he)
          (insert-IsPositive r.source (amount_at r.source supply + r.value) supply
            (omega (arith, some)) hs))
]

-- Joining the routes of a hold gives the hold, if it decomposes, is in order and has no empty entry.
pub from_paths-decompose :
    (held : Held) (debtor : ℕ) (rs : List Route)
    → IsSorted held.edges
    → IsSorted held.supply
    → IsPositive held.edges
    → IsPositive held.supply
    → decompose held debtor ≡ ok rs
    → from_paths rs ≡ held
unfolding from_paths
from_paths-decompose held debtor rs he hs pe ps e =
    let carries = decompose-Carries held debtor rs he hs e in
    let joined = from_paths-amounts rs in
    let order = from_paths-Joins rs in
    let positive = sum_paths-IsPositive rs [] [] tt tt in
    let edges =
      amounts_ext (from_paths rs).edges held.edges order.edges he positive.0 pe
        λ key. omega (arith, joined.0 key, carries.arcs key) in
    let supply =
      amounts_ext (from_paths rs).supply held.supply order.supply hs positive.1 ps
        λ u. omega (arith, joined.1 u, carries.sources u) in
    let hold : Map (ℕ × ℕ) ℕ → Map ℕ ℕ → Held = λ x y. record { edges = x; supply = y } in
    ap₂ hold edges supply
