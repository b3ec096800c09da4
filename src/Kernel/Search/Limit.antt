-- ===== src/Kernel/Search/Limit.antt =====
-- The flow that `Network::flow` finds against its limit.
use edet.Base.{
  ℕ, zero, suc, ◌-◌, ◌≤◌, ◌≡◌, inl, inr, Option, List, arith, ltb, Bool-cases, Option-cases,
}
use edet.Kernel.Search.{
  Walk, bottleneck, augment_step, retreat_step, advance_step, step, walk, phase, rounds, flow,
  Network, levels, phase_fuel, start_walk,
}

bottleneck-le : (cap path : List ℕ) (want : ℕ) → bottleneck cap path want ≤ want
unfolding bottleneck
bottleneck-le cap path want = ground arith

augment_step-le :
    (net : Network) (limit : ℕ) (s : Walk)
    → s.total ≤ limit
    → (augment_step net limit s).total ≤ limit
unfolding augment_step
augment_step-le net limit s h = omega (arith, bottleneck-le s.cap s.path (limit - s.total))

advance_step-total :
    (net : Network) (level : List (Option ℕ)) (s : Walk)
    → (advance_step net level s).total ≡ s.total
unfolding advance_step retreat_step
advance_step-total net level s = ground arith

step-le :
    (net : Network) (level : List (Option ℕ)) (limit : ℕ) (s : Walk)
    → s.total ≤ limit
    → (step net level limit s).total ≤ limit
unfolding step
step-le net level limit s h =
    ground (arith, augment_step-le net limit s h, advance_step-total net level s)

walk-le :
    (fuel : ℕ) (net : Network) (level : List (Option ℕ)) (limit : ℕ) (s : Walk)
    → s.total ≤ limit
    → (walk fuel net level limit s).total ≤ limit
unfolding walk
walk-le zero net level limit s h = h
walk-le (suc fuel) net level limit s h =
    ground (
      arith,
      h,
      walk-le fuel net level limit (step net level limit s) (step-le net level limit s h),
    )

rounds-le :
    (fuel : ℕ) (net : Network) (limit total : ℕ)
    → total ≤ limit
    → (rounds fuel net limit total).0 ≤ limit
unfolding rounds phase
rounds-le zero net limit total h = h
rounds-le (suc fuel) net limit total h = elim (Bool-cases (ltb total limit)) [
  | inl more ↦ elim (Option-cases (levels net)) [
    | inl e ↦ rw (more, e, rounds) h
    | inr (level, e) ↦
        let s = walk (phase_fuel net) net level limit (start_walk net total) in
        rw (more, e, rounds)
          (rounds-le fuel (record net { cap = s.cap }) limit s.total
            (walk-le (phase_fuel net) net level limit (start_walk net total) h))
  ]
  | inr full ↦ rw (full, rounds) h
]

-- Whatever the network, the flow found is at most the limit asked for.
pub flow-le : (net : Network) (limit : ℕ) → (flow net limit).0 ≤ limit
unfolding flow
flow-le net limit = rounds-le limit net limit 0 (omega arith)
