-- ===== src/Kernel/Capacity/Agreement.antt =====
-- The capacity test of crates/kernel/src/flow.rs and the reservation.
use edet.Base.{ℕ, ◌<◌, ◌≡◌, ◌≢◌, ◌↔◌, Bool, none, [], ◌∷◌, arith}
use edet.Kernel.Capacity.{
  reserve_inner, capacity_inner, Edges, Reservations, Committed, Underwriters,
}

-- A reservation is refused exactly when the capacity of the debtor, asked up to the amount, falls
-- short of it, and a refusal leaves both maps as they were. The debtor's ledger has an account.
pub reserve_inner-refused :
    (edges : Edges) (reserved : Reservations) (committed : Committed) (uw : Underwriters)
    (debtor n amount : ℕ) (own_supply : Bool)
    → n ≢ 0
    → let r = reserve_inner edges reserved committed uw debtor n amount own_supply in
      ((r.held ≡ none)
        ↔ (capacity_inner edges reserved committed uw (debtor ∷ []) n amount own_supply < amount))
      × (r.held ≡ none → (r.reserved ≡ reserved) × (r.committed ≡ committed))
unfolding reserve_inner capacity_inner
reserve_inner-refused edges reserved committed uw debtor n amount own_supply h =
    ((λ e. ground arith, λ lt. ground arith), λ e. ground arith)
