-- ===== src/Kernel/Standing.antt =====
-- `stake` and `decay` of crates/kernel/src/flow.rs: how the stake graph grows and fades.
pub mod Decay
pub mod Stake
use edet.Base.{◌%◌, ◌^◌, ℕ, ◌*◌, ◌/◌, min, max, [], ◌∷◌, ◌||◌, ltb, leb, ◌==◌, if◌then◌else◌}
use edet.Map.{insert, retain, amount_at}
use edet.Kernel.{Edges, Reservations}
use edet.Kernel.Cursor
use edet.Kernel.Cursor.{ReservedCursor}
use edet.Map.Keys.{pair_ordered}

-- `stake`: the peak of what was settled, capped by what the creditor may confer.
unfoldable pub stake : Edges → ℕ → ℕ → ℕ → ℕ → Edges
stake edges creditor debtor amount conferrable =
    if creditor == debtor
    then edges
    else let staked = min amount conferrable in
      let key : ℕ × ℕ = (creditor, debtor) in
      if staked == 0 then edges else insert key (max (amount_at key edges) staked) edges

-- The loop of `decay`, over the stakes and the cursor.
unfoldable pub decay_walk : Edges → ReservedCursor → ℕ → ℕ → Edges
decay_walk [] held num den = []
decay_walk ((k, w) ∷ edges) held num den =
    let (floor, held') = Cursor.at k held in
    (k, max (w * num / den % 2 ^ 64) floor) ∷ decay_walk edges held' num den

-- `decay`: a fade by `num / den`, never below the reservation. The product
-- is taken in 128 bits and the quotient cast to 64.
unfoldable pub decay : Edges → Reservations → ℕ → ℕ → Edges
unfolding decay_walk
decay edges reserved num den =
    if den == 0 || leb den num
    then edges
    else retain (λ _ w. ltb 0 w) (decay_walk edges (Cursor.new reserved) num den)
