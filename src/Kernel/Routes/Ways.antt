-- ===== src/Kernel/Routes/Ways.antt =====
-- The walk of `decompose` of crates/kernel/src/flow.rs: each arc of it is held, and none twice.
use edet.Base.{
  ℕ, zero, suc, ◌+◌, ◌-◌, ◌≤◌, min, Ordering, ◌≡◌, refl, ◌∙◌, inl, inr, true, false, ◌&&◌, some,
  List, [], ◌∷◌, ◌++◌, arith, ltb, ◌==◌, if◌then◌else◌, Bool-cases, Option-cases,
}
use mathlib.Core.List.{append-nil, append_assoc}
use edet.Base.Sums.{sum_by}
use edet.Map.{Map, get, update, amount_at, IsSorted}
use edet.Map.Keys.{nat_ordered, pair_ordered, pair_eq_iff}
use edet.Map.Laws.{get-cons_later, update-IsSorted, cmp_self}
use edet.Map.Amounts.{amount_at-sub}
use edet.Kernel.Routes.{Route, ok, first_arc, contains, route, take_arcs}

-- How often an arc is on a way, times the value of the way.
abbrev pub carried_by : ℕ × ℕ → List (ℕ × ℕ) → ℕ → ℕ
carried_by key [] v = 0
carried_by key (a ∷ arcs) v = elim (pair_ordered.cmp key a) [
  | Ordering.eq ↦ v + carried_by key arcs v
  | _ ↦ carried_by key arcs v
]

-- What the routes carry over an arc, and from a source.
abbrev pub over_arc : ℕ × ℕ → List Route → ℕ
over_arc key rs = sum_by (λ r. carried_by key r.arcs r.value) rs

abbrev pub from_source : ℕ → List Route → ℕ
from_source u rs = sum_by (λ r. if r.source == u then r.value else 0) rs

pub first_arc-get :
    (node : ℕ) (m : Map (ℕ × ℕ) ℕ) (a b w : ℕ)
    → IsSorted m
    → first_arc node m ≡ some ((a, b), w)
    → get (a, b) m ≡ some w
unfolding first_arc
first_arc-get node [] a b w h e = ground (arith, e)
first_arc-get node (((c, d), v) ∷ m) a b w h e = elim (Bool-cases (c == node && ltb 0 v)) [
  | inl here ↦ ground (arith, e, here, cmp_self {K = ℕ × ℕ} (a, b))
  | inr later ↦
      get-cons_later (c, d) (a, b) v w m h.0
        (first_arc-get node m a b w h.1 (ground (arith, e, later)))
]

-- The arcs end at nodes that are new to the walk, each at another, and each holds the value.
abbrev pub IsWay : Map (ℕ × ℕ) ℕ → ℕ → List ℕ → List (ℕ × ℕ) → Type 0
IsWay left v seen [] = Unit
IsWay left v seen ((a, b) ∷ arcs) =
    (contains b seen ≡ false) × (v ≤ amount_at (a, b) left) × IsWay left v (b ∷ seen) arcs

pub take_arcs-IsSorted :
    (arcs : List (ℕ × ℕ)) (v : ℕ) (left : Map (ℕ × ℕ) ℕ)
    → IsSorted left
    → IsSorted (take_arcs arcs v left)
unfolding take_arcs
take_arcs-IsSorted [] v left h = h
take_arcs-IsSorted (key ∷ arcs) v left h =
    take_arcs-IsSorted arcs v (update key (λ w. w - v) left)
      (update-IsSorted key (λ w. w - v) left h)

contains_self : (b : ℕ) (seen : List ℕ) → contains b (b ∷ seen) ≡ true
unfolding contains
contains_self b seen = ground arith

-- An arc to a node that was seen is not on the way.
IsWay-seen :
    (left : Map (ℕ × ℕ) ℕ) (v a b : ℕ) (seen : List ℕ) (arcs : List (ℕ × ℕ))
    → IsWay left v seen arcs
    → contains b seen ≡ true
    → carried_by (a, b) arcs v ≡ 0
unfolding contains
IsWay-seen left v a b seen [] h c = refl
IsWay-seen left v a b seen ((x, y) ∷ arcs) h c =
    ground (arith, IsWay-seen left v a b (y ∷ seen) arcs h.2, h.0, c)

-- The way still holds its value once an arc to a node that was seen is taken.
update-IsWay :
    (left : Map (ℕ × ℕ) ℕ) (v a b w : ℕ) (seen : List ℕ) (arcs : List (ℕ × ℕ))
    → IsWay left v seen arcs
    → contains b seen ≡ true
    → IsWay (update (a, b) (λ r. r - w) left) v seen arcs
unfolding contains
update-IsWay left v a b w seen [] h c = tt
update-IsWay left v a b w seen ((x, y) ∷ arcs) h c = (
  h.0,
  ground (arith, h.0, h.1, c, amount_at-sub (x, y) (a, b) w left, pair_eq_iff (x, y) (a, b)),
  update-IsWay left v a b w (y ∷ seen) arcs h.2 (ground (arith, c)),
)

pub amount_at-take_arcs :
    (key : ℕ × ℕ) (arcs : List (ℕ × ℕ)) (v : ℕ) (seen : List ℕ) (left : Map (ℕ × ℕ) ℕ)
    → IsWay left v seen arcs
    → amount_at key (take_arcs arcs v left) + carried_by key arcs v ≡ amount_at key left
unfolding take_arcs
amount_at-take_arcs key [] v seen left h = omega arith
amount_at-take_arcs key ((a, b) ∷ arcs) v seen left h =
    let later = IsWay-seen left v a b (b ∷ seen) arcs h.2 (contains_self b seen) in
    ground (
      arith,
      amount_at-take_arcs key arcs v (b ∷ seen) (update (a, b) (λ w. w - v) left)
          (update-IsWay left v a b v (b ∷ seen) arcs h.2 (contains_self b seen)),
      amount_at-sub key (a, b) v left,
      pair_eq_iff key (a, b),
      later,
      h.1,
    )

pub route-IsWay :
    (fuel : ℕ) (left : Map (ℕ × ℕ) ℕ) (debtor src node : ℕ) (arcs : List (ℕ × ℕ)) (value : ℕ)
    (seen : List ℕ) (found : List (ℕ × ℕ)) (v : ℕ)
    → IsSorted left
    → route fuel left debtor src node arcs value seen ≡ ok (found, v)
    → (new : List (ℕ × ℕ)) × (found ≡ arcs ++ new) × (v ≤ value) × IsWay left v seen new
unfolding route
route-IsWay zero left debtor src node arcs value seen found v h e = absurd (ground (arith, e))
route-IsWay (suc fuel) left debtor src node arcs value seen found v h e =
    elim (Bool-cases (node == debtor)) [
      | inl there ↦ ([], ground (arith, e, there, append-nil arcs), ground (arith, e, there), tt)
      | inr away ↦ elim (Option-cases (first_arc node left)) [
        | inl none_at ↦ absurd (ground (arith, e, away, none_at))
        | inr (((a, b), w), arc_at) ↦ elim (Bool-cases (contains b seen)) [
          | inl again ↦ absurd (ground (arith, e, away, arc_at, again))
          | inr fresh ↦
              let inner : route fuel left debtor src b (arcs ++ (a, b) ∷ []) (min value w)
                    (b ∷ seen)
                  ≡ ok (found, v) =
                ground (arith, e, away, arc_at, fresh) in
              let (new, same, less, way) =
                route-IsWay fuel left debtor src b (arcs ++ (a, b) ∷ []) (min value w) (b ∷ seen)
                  found v h inner in
              let held : get (a, b) left ≡ some w = first_arc-get node left a b w h arc_at in
              (
                (a, b) ∷ new,
                same ∙ append_assoc arcs ((a, b) ∷ []) new,
                omega (arith, less),
                (fresh, ground (arith, held, less), way),
              )
        ]
      ]
    ]
