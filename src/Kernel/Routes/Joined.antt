-- ===== src/Kernel/Routes/Joined.antt =====
-- What a hold has that `from_paths` of crates/kernel/src/flow.rs sums from routes.
use edet.Base.{ℕ, ◌+◌, ◌≡◌, refl, inl, inr, List, [], ◌∷◌, arith, ◌==◌, Bool-cases, ==_iff}
use edet.Map.{IsSorted, Map, amount_at}
use edet.Map.Keys.{nat_ordered, pair_ordered, nat_eq_iff}
use edet.Map.Laws.{Above-mono, get-Above, insert-IsSorted}
use edet.Map.Amounts.{amount_at-add}
use edet.Kernel.Held.{Held}
use edet.Kernel.Routes.{Route, add_at, add_arcs, sum_paths, from_paths}
use edet.Kernel.Routes.Ways.{carried_by, over_arc, from_source}
use edet.Base.Sums.{sum_by}

add_arcs-amount :
    (key : ℕ × ℕ) (arcs : List (ℕ × ℕ)) (v : ℕ) (m : Map (ℕ × ℕ) ℕ)
    → amount_at key (add_arcs arcs v m) ≡ carried_by key arcs v + amount_at key m
unfolding add_arcs
add_arcs-amount key [] v m = omega arith
add_arcs-amount key (a ∷ arcs) v m =
    ground (arith, add_arcs-amount key arcs v (add_at a v m), amount_at-add key a v m)

carried_by-zero : (key : ℕ × ℕ) (arcs : List (ℕ × ℕ)) → carried_by key arcs 0 ≡ 0
carried_by-zero key [] = refl
carried_by-zero key (a ∷ arcs) = ground (arith, carried_by-zero key arcs)

sum_paths-amounts :
    (rs : List Route) (edges : Map (ℕ × ℕ) ℕ) (supply : Map ℕ ℕ)
    → ((key : ℕ × ℕ)
        → amount_at key (sum_paths rs edges supply).edges ≡ over_arc key rs + amount_at key edges)
      × ((u : ℕ)
          → amount_at u (sum_paths rs edges supply).supply ≡ from_source u rs + amount_at u supply)
unfolding sum_paths
sum_paths-amounts [] edges supply = (λ key. omega arith, λ u. omega arith)
sum_paths-amounts (r ∷ rs) edges supply = elim (Bool-cases (r.value == 0)) [
  | inl none_at ↦
      let ih = sum_paths-amounts rs edges supply in
      rw (none_at, sum_paths)
        (
          λ key. ground (arith, ih.0 key, carried_by-zero key r.arcs, (==_iff r.value 0).0 none_at),
          λ u. ground (arith, ih.1 u, none_at),
        )
  | inr some_at ↦
      let ih =
        sum_paths-amounts rs (add_arcs r.arcs r.value edges) (add_at r.source r.value supply) in
      rw (some_at, sum_paths)
        (
          λ key. omega (arith, ih.0 key, add_arcs-amount key r.arcs r.value edges),
          λ u.
              ground
                (arith, ih.1 u, amount_at-add u r.source r.value supply, nat_eq_iff u r.source),
        )
]

-- A hold summed from routes holds on each arc and of each underwriter what they carry.
pub from_paths-amounts :
    (rs : List Route)
    → ((key : ℕ × ℕ) → amount_at key (from_paths rs).edges ≡ over_arc key rs)
      × ((u : ℕ) → amount_at u (from_paths rs).supply ≡ from_source u rs)
unfolding from_paths
from_paths-amounts rs =
    let sums = sum_paths-amounts rs [] [] in
    (λ key. omega (arith, sums.0 key), λ u. omega (arith, sums.1 u))

add_arcs-IsSorted :
    (arcs : List (ℕ × ℕ)) (v : ℕ) (m : Map (ℕ × ℕ) ℕ) → IsSorted m → IsSorted (add_arcs arcs v m)
unfolding add_arcs
add_arcs-IsSorted [] v m h = h
add_arcs-IsSorted (a ∷ arcs) v m h =
    add_arcs-IsSorted arcs v (add_at a v m) (insert-IsSorted a (amount_at a m + v) m h)

-- One more amount of a key is as much more in all.
sum_by-add_at :
    (k v : ℕ) (m : Map ℕ ℕ)
    → IsSorted m
    → sum_by (λ (e : ℕ × ℕ). e.1) (add_at k v m) ≡ sum_by (λ (e : ℕ × ℕ). e.1) m + v
sum_by-add_at k v [] h = ground arith
sum_by-add_at k v ((j, w) ∷ m) h =
    ground (arith, sum_by-add_at k v m h.1, get-Above k m, Above-mono k j m, h.0)

-- The keys of a sum of routes are in order, and its amount is that of the routes.
pub record Joins (held : Held) (n : ℕ) : Type 0 where
  pub edges : IsSorted held.edges
  pub supply : IsSorted held.supply
  pub whole : sum_by (λ (e : ℕ × ℕ). e.1) held.supply ≡ n

sum_paths-Joins :
    (rs : List Route) (edges : Map (ℕ × ℕ) ℕ) (supply : Map ℕ ℕ)
    → IsSorted edges
    → IsSorted supply
    → Joins
        (sum_paths rs edges supply)
        (sum_by (λ (r : Route). r.value) rs + sum_by (λ (e : ℕ × ℕ). e.1) supply)
unfolding sum_paths
sum_paths-Joins [] edges supply he hs = record { edges = he; supply = hs; whole = omega arith }
sum_paths-Joins (r ∷ rs) edges supply he hs = elim (Bool-cases (r.value == 0)) [
  | inl none_at ↦
      let ih = sum_paths-Joins rs edges supply he hs in
      rw (none_at, sum_paths)
        (record { edges = ih.edges; supply = ih.supply; whole = ground (arith, ih.whole, none_at) })
  | inr some_at ↦
      let ih =
        sum_paths-Joins rs (add_arcs r.arcs r.value edges) (add_at r.source r.value supply)
          (add_arcs-IsSorted r.arcs r.value edges he)
          (insert-IsSorted r.source (amount_at r.source supply + r.value) supply hs) in
      rw (some_at, sum_paths)
        (record {
          edges = ih.edges;
          supply = ih.supply;
          whole = omega (arith, ih.whole, sum_by-add_at r.source r.value supply hs);
        })
]

pub from_paths-Joins :
    (rs : List Route) → Joins (from_paths rs) (sum_by (λ (r : Route). r.value) rs)
unfolding from_paths
from_paths-Joins rs =
    let whole = sum_paths-Joins rs [] [] tt tt in
    record { edges = whole.edges; supply = whole.supply; whole = omega (arith, whole.whole) }
