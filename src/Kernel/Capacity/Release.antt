-- ===== src/Kernel/Capacity/Release.antt =====
-- `release` of crates/kernel/src/flow.rs after `reserve`.
use edet.Base.{ℕ, ◌+◌, ◌-◌, ◌≡◌, Bool, some, List, [], ◌∷◌, arith, ltb, if◌then◌else◌}
use edet.Map.{Map, update, retain, amount_at, IsSorted}
use edet.Map.Keys.{Ordered, nat_ordered, pair_ordered}
use edet.Map.Laws.{insert-IsSorted, update-IsSorted, retain-IsSorted}
use edet.Map.Amounts.{
  IsPositive, charged, amount_at-add, amount_at-sub, amount_at-retain, amounts_ext,
  retain-IsPositive, retain_id, insert-IsPositive,
}
use edet.Kernel.{Edges, Reservations, Committed, Underwriters}
use edet.Kernel.Held.{Held}
use edet.Kernel.Routes.{add_at}
use edet.Kernel.Search.{flow, cap_at}
use edet.Kernel.Network.{build}
use edet.Kernel.Capacity.{charge, give_back, nonzero, reserve_inner, release}

module _ {K : Type 0} ⦃o : Ordered K⦄ where
  pub amount_at-charge :
      (j : K) (arcs : List (K × ℕ)) (before after : List ℕ) (m : Map K ℕ)
      → amount_at j (charge arcs before after m).0
        ≡ amount_at j m + charged j (charge arcs before after m).1
  unfolding charge
  amount_at-charge j [] before after m = omega arith
  amount_at-charge j ((key, a) ∷ arcs) before after m =
      let used = cap_at before a - cap_at after a in
      ground (
        arith,
        amount_at-add j key used m,
        amount_at-charge j arcs before after (add_at key used m),
        amount_at-charge j arcs before after m,
      )

  pub charge-IsSorted :
      (arcs : List (K × ℕ)) (before after : List ℕ) (m : Map K ℕ)
      → IsSorted m
      → IsSorted (charge arcs before after m).0
  unfolding charge
  charge-IsSorted [] before after m h = h
  charge-IsSorted ((key, a) ∷ arcs) before after m h =
      let used = cap_at before a - cap_at after a in
      charge-IsSorted arcs before after (if ltb 0 used then add_at key used m else m)
        (ground (arith, insert-IsSorted key (amount_at key m + used) m h))

  pub charge-IsPositive :
      (arcs : List (K × ℕ)) (before after : List ℕ) (m : Map K ℕ)
      → IsPositive m
      → IsPositive (charge arcs before after m).0
  unfolding charge
  charge-IsPositive [] before after m h = h
  charge-IsPositive ((key, a) ∷ arcs) before after m h =
      let used = cap_at before a - cap_at after a in
      charge-IsPositive arcs before after (if ltb 0 used then add_at key used m else m)
        (ground (arith, insert-IsPositive key (amount_at key m + used) m))

  pub amount_at-give_back :
      (j : K) (es : List (K × ℕ)) (m : Map K ℕ)
      → amount_at j (give_back es m) ≡ amount_at j m - charged j es
  unfolding give_back
  amount_at-give_back j [] m = omega arith
  amount_at-give_back j ((key, v) ∷ es) m =
      ground (arith, amount_at-sub j key v m, amount_at-give_back j es (update key (λ r. r - v) m))

  pub give_back-IsSorted :
      (es : List (K × ℕ)) (m : Map K ℕ) → IsSorted m → IsSorted (give_back es m)
  unfolding give_back
  give_back-IsSorted [] m h = h
  give_back-IsSorted ((key, v) ∷ es) m h = give_back-IsSorted es _ (update-IsSorted key _ m h)

  pub give_back-charge :
      (arcs : List (K × ℕ)) (before after : List ℕ) (m : Map K ℕ)
      → IsSorted m
      → IsPositive m
      → let (m', noted) = charge arcs before after m in retain nonzero (give_back noted m') ≡ m
  give_back-charge arcs before after m s p =
      let (m', noted) = charge arcs before after m in
      let sorted : IsSorted (give_back noted m') =
        give_back-IsSorted noted m' (charge-IsSorted arcs before after m s) in
      amounts_ext _ m (retain-IsSorted nonzero _ sorted) s (retain-IsPositive (give_back noted m'))
        p
        λ j. omega (
          arith,
          amount_at-retain j (give_back noted m') sorted,
          amount_at-give_back j noted m',
          amount_at-charge j arcs before after m,
        )

-- Releasing what a reservation returned restores both maps exactly, provided they were ordered
-- and held no empty entry: no capacity is created or destroyed on the way.
pub release-reserve_inner :
    (edges : Edges) (reserved : Reservations) (committed : Committed) (uw : Underwriters)
    (debtor n amount : ℕ) (own_supply : Bool) (held : Held)
    → IsSorted reserved
    → IsPositive reserved
    → IsSorted committed
    → IsPositive committed
    → let r = reserve_inner edges reserved committed uw debtor n amount own_supply in
      r.held ≡ some held → release r.reserved r.committed held ≡ (reserved, committed)
unfolding reserve_inner release give_back
release-reserve_inner edges reserved committed uw debtor n amount own_supply held sr pr sc pc e =
    let net = build edges reserved committed uw (debtor ∷ []) n own_supply in
    let after = (flow net amount).1 in
    ground (
      arith,
      retain_id reserved pr,
      retain_id committed pc,
      give_back-charge net.ledger_arc net.cap after.cap reserved sr pr,
      give_back-charge net.supply_arc net.cap after.cap committed sc pc,
    )
