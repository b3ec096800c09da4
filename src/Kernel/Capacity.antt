-- ===== src/Kernel/Capacity.antt =====
-- The queries of crates/kernel/src/flow.rs, and the reservation of flow and its release.
pub mod Release
pub mod Bounds
pub mod Agreement
use edet.Base.{
  ℕ, ◌-◌, Bool, true, false, Option, none, some, List, [], ◌∷◌, ltb, ◌==◌, if◌then◌else◌,
}
use edet.Base.Sums.{sum_by}
use edet.Map.{Map, update, retain, amount_at}
use edet.Map.Keys.{Ordered, nat_ordered, pair_ordered}
use edet.Kernel.{Edges, Reservations, Committed, Underwriters, u64_max}
use edet.Kernel.Held.{Held}
use edet.Kernel.Held
use edet.Kernel.Routes.{add_at}
use edet.Kernel.Network.{build}
use edet.Kernel.Search.{flow, cap_at}

unfoldable pub capacity_inner :
    Edges → Reservations → Committed → Underwriters → List ℕ → ℕ → ℕ → Bool → ℕ
capacity_inner edges reserved committed uw [] n limit own_supply = 0
capacity_inner edges reserved committed uw (t ∷ targets) n limit own_supply =
    if n == 0
    then 0
    else (flow (build edges reserved committed uw (t ∷ targets) n own_supply) limit).0

unfoldable pub capacity : Edges → Reservations → Committed → Underwriters → List ℕ → ℕ → ℕ → ℕ
unfolding capacity_inner
capacity edges reserved committed uw targets n limit =
    capacity_inner edges reserved committed uw targets n limit false

unfoldable pub capacity_with_own_supply :
    Edges → Reservations → Committed → Underwriters → List ℕ → ℕ → ℕ → ℕ
unfolding capacity_inner
capacity_with_own_supply edges reserved committed uw targets n limit =
    capacity_inner edges reserved committed uw targets n limit true

-- `uw.iter().find(|(u, _)| u == member)`
unfoldable pub declared : ℕ → Underwriters → Option ℕ
declared member [] = none
declared member ((u, supply) ∷ uw) = if u == member then some supply else declared member uw

unfoldable pub conferrable : Edges → Reservations → Committed → Underwriters → ℕ → ℕ → ℕ
unfolding declared capacity
conferrable edges reserved committed uw member n = elim (declared member uw) [
  | some supply ↦ supply
  | none ↦ capacity edges reserved committed uw (member ∷ []) n u64_max
]

unfoldable pub capacity_of : Edges → Reservations → Committed → Underwriters → ℕ → ℕ → ℕ
unfolding capacity
capacity_of edges reserved committed uw account n =
    capacity edges reserved committed uw (account ∷ []) n u64_max

-- One of the two loops of `reserve_inner` after the search: what each arc gave up is charged to
-- its key and noted.
unfoldable pub charge :
    {K : Type 0} ⦃o : Ordered K⦄ → List (K × ℕ) → List ℕ → List ℕ → Map K ℕ → Map K ℕ × List (K × ℕ)
charge [] before after m = (m, [])
charge ((key, a) ∷ arcs) before after m =
    let used = cap_at before a - cap_at after a in
    let (m', noted) = charge arcs before after (if ltb 0 used then add_at key used m else m) in
    (m', if ltb 0 used then (key, used) ∷ noted else noted)

-- What `reserve_inner` returns beside the two maps that it writes.
pub record Reservation : Type 0 where
  pub held : Option Held
  pub reserved : Reservations
  pub committed : Committed

unfoldable pub reserve_inner :
    Edges → Reservations → Committed → Underwriters → ℕ → ℕ → ℕ → Bool → Reservation
unfolding charge
reserve_inner edges reserved committed uw debtor n amount own_supply =
    let net = build edges reserved committed uw (debtor ∷ []) n own_supply in
    let (found, after) = flow net amount in
    let (reserved', on_edges) = charge net.ledger_arc net.cap after.cap reserved in
    let (committed', on_supply) = charge net.supply_arc net.cap after.cap committed in
    if amount == 0
    then record { held = some Held.empty; reserved = reserved; committed = committed }
    else if ltb found amount
    then record { held = none; reserved = reserved; committed = committed }
    else record {
      held = some (record { edges = on_edges; supply = on_supply });
      reserved = reserved';
      committed = committed';
    }

unfoldable pub reserve : Edges → Reservations → Committed → Underwriters → ℕ → ℕ → ℕ → Reservation
unfolding reserve_inner
reserve edges reserved committed uw debtor n amount =
    reserve_inner edges reserved committed uw debtor n amount false

unfoldable pub reserve_with_own_supply :
    Edges → Reservations → Committed → Underwriters → ℕ → ℕ → ℕ → Reservation
unfolding reserve_inner
reserve_with_own_supply edges reserved committed uw debtor n amount =
    reserve_inner edges reserved committed uw debtor n amount true

-- `for (key, amount) in …` with `saturating_sub` on the entry that is there.
unfoldable pub give_back : {K : Type 0} ⦃o : Ordered K⦄ → List (K × ℕ) → Map K ℕ → Map K ℕ
give_back [] m = m
give_back ((key, amount) ∷ es) m = give_back es (update key (λ r. r - amount) m)

abbrev pub nonzero : {K : Type 0} → K → ℕ → Bool
nonzero _ v = ltb 0 v

-- `release`
unfoldable pub release : Reservations → Committed → Held → Reservations × Committed
unfolding give_back
release reserved committed held = (
  retain nonzero (give_back held.edges reserved),
  retain nonzero (give_back held.supply committed),
)

unfoldable pub supply_floor : Committed → ℕ → ℕ
supply_floor committed underwriter = amount_at underwriter committed

unfoldable pub reserved_total : Reservations → ℕ
reserved_total reserved = sum_by (λ e. e.1) reserved

unfoldable pub committed_total : Committed → ℕ
committed_total committed = sum_by (λ e. e.1) committed
