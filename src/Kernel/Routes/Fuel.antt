-- ===== src/Kernel/Routes/Fuel.antt =====
-- The walk of `decompose` of crates/kernel/src/flow.rs ends: more turns than the arcs of the hold, and
-- one, change nothing.
use edet.Base.{
  ℕ, zero, suc, ◌+◌, ◌-◌, ◌≤◌, ◌<◌, min, ◌≡◌, refl, ap, ◌∙◌, inl, inr, false, some, List, [], ◌∷◌,
  ◌++◌, arith, if◌then◌else◌, Bool-cases, Option-cases, length,
}
use edet.Base.Sums.{sum_by}
use edet.Map.{Map, insert, update, IsSorted}
use edet.Map.Keys.{Ordered, nat_ordered, pair_ordered}
use edet.Map.Sizes.{length-insert, length-update}
use edet.Map.Laws.{insert-IsSorted}
use edet.Kernel.Held.{Held}
use edet.Kernel.Routes.{
  Route, first_source, first_arc, contains, route, take_arcs, routes, collect, decompose,
}
use edet.Kernel.Routes.Sums.{Result-cases}
use native.Mathlib.Nat.{suc-add}

-- How many arcs lead to a node that the walk has not seen.
abbrev unseen : List ℕ → Map (ℕ × ℕ) ℕ → ℕ
unseen seen left = sum_by (λ (e : (ℕ × ℕ) × ℕ). if contains e.0.1 seen then 0 else 1) left

unseen-le : (seen : List ℕ) (left : Map (ℕ × ℕ) ℕ) → unseen seen left ≤ length left
unseen-le seen [] = omega arith
unseen-le seen (e ∷ left) = ground (arith, unseen-le seen left)

unseen-more :
    (b : ℕ) (seen : List ℕ) (left : Map (ℕ × ℕ) ℕ) → unseen (b ∷ seen) left ≤ unseen seen left
unfolding contains
unseen-more b seen [] = omega arith
unseen-more b seen (e ∷ left) = ground (arith, unseen-more b seen left)

-- A node that is entered for the first time leaves fewer arcs to unseen nodes.
unseen-less :
    (node : ℕ) (left : Map (ℕ × ℕ) ℕ) (seen : List ℕ) (a b w : ℕ)
    → first_arc node left ≡ some ((a, b), w)
    → contains b seen ≡ false
    → unseen (b ∷ seen) left < unseen seen left
unfolding first_arc contains
unseen-less node [] seen a b w e c = ground (arith, e)
unseen-less node (((x, y), v) ∷ left) seen a b w e c =
    ground (arith, unseen-more b seen left, unseen-less node left seen a b w, e, c)

route-fuel :
    (fuel extra : ℕ) (left : Map (ℕ × ℕ) ℕ) (debtor src node : ℕ) (arcs : List (ℕ × ℕ)) (value : ℕ)
    (seen : List ℕ)
    → unseen seen left < fuel
    → route (fuel + extra) left debtor src node arcs value seen
      ≡ route fuel left debtor src node arcs value seen
unfolding route
route-fuel zero extra left debtor src node arcs value seen h = elim h [ ]
route-fuel (suc fuel) extra left debtor src node arcs value seen h =
    ap (λ n. route n left debtor src node arcs value seen) (suc-add fuel extra)
    ∙ elim (Option-cases (first_arc node left)) [
      | inl none_at ↦ ground (arith, none_at)
      | inr (((a, b), w), arc_at) ↦ elim (Bool-cases (contains b seen)) [
        | inl again ↦ ground (arith, arc_at, again)
        | inr fresh ↦
            let less = unseen-less node left seen a b w arc_at fresh in
            let ih =
              route-fuel fuel extra left debtor src b (arcs ++ (a, b) ∷ []) (min value w) (b ∷ seen)
                (omega (arith, less, h)) in
            ground (arith, arc_at, fresh, ih)
      ]
    ]

pub length-take_arcs :
    (arcs : List (ℕ × ℕ)) (v : ℕ) (left : Map (ℕ × ℕ) ℕ)
    → length (take_arcs arcs v left) ≡ length left
unfolding take_arcs
length-take_arcs [] v left = refl
length-take_arcs (key ∷ arcs) v left =
    length-take_arcs arcs v (update key (λ w. w - v) left) ∙ length-update key (λ w. w - v) left

routes-fuel :
    (budget bound extra debtor : ℕ) (edges : Map (ℕ × ℕ) ℕ) (supply : Map ℕ ℕ) (out : List Route)
    → length edges < bound
    → routes budget (bound + extra) debtor edges supply out
      ≡ routes budget bound debtor edges supply out
unfolding routes
routes-fuel zero bound extra debtor edges supply out h = refl
routes-fuel (suc budget) bound extra debtor edges supply out h =
    elim (Option-cases (first_source supply)) [
      | inl none_at ↦ ground (arith, none_at)
      | inr ((src, v), source_at) ↦
          let same =
            route-fuel bound extra edges debtor src src [] v (src ∷ [])
              (omega (arith, unseen-le (src ∷ []) edges, h)) in
          elim (Result-cases (route bound edges debtor src src [] v (src ∷ []))) [
            | inl (why, bad) ↦ ground (arith, source_at, bad, same)
            | inr ((arcs, value), good) ↦
                let left = take_arcs arcs value edges in
                let ih =
                  routes-fuel budget bound extra debtor left (update src (λ s. s - value) supply)
                    (out ++ record { source = src; arcs = arcs; value = value } ∷ [])
                    (omega (arith, length-take_arcs arcs value edges, h)) in
                ground (arith, source_at, good, same, ih)
          ]
    ]

length-collect :
    {K : Type 0} ⦃o : Ordered K⦄ (es : List (K × ℕ)) (m : Map K ℕ)
    → IsSorted m
    → length (collect es m) ≤ length es + length m
unfolding collect
length-collect [] m h = omega arith
length-collect ((k, v) ∷ es) m h =
    ground
      (arith, length-collect es (insert k v m) (insert-IsSorted k v m h), length-insert k v m h)

-- The walks of `decompose` end within the turns that they are given, whatever the hold: with any number
-- of turns more the routes, or the refusal, are the same.
pub decompose-routes :
    (held : Held) (debtor extra : ℕ)
    → routes
        (length held.edges + length held.supply + 1)
        (length held.edges + 2 + extra)
        debtor
        (collect held.edges [])
        (collect held.supply [])
        []
      ≡ decompose held debtor
unfolding decompose
decompose-routes held debtor extra =
    routes-fuel (length held.edges + length held.supply + 1) (length held.edges + 2) extra debtor
      (collect held.edges []) (collect held.supply []) []
      (omega (arith, length-collect held.edges [] tt))
