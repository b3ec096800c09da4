-- ===== src/State/Ledger.antt =====
-- The standing of the accounts in `State`, crates/state/src/state.rs: the maps over which the
-- kernel's flow is asked, held and given back, for credit and for seats, in minor units.
pub mod Touched
pub mod Restored
pub mod Gate
use edet.Base.{
  ℕ, zero, suc, ◌+◌, Bool, true, false, ◌||◌, Option, none, some, List, [], ◌∷◌, leb, ◌==◌,
  if◌then◌else◌, or_else,
}
use edet.Map.{Map, get}
use edet.Kernel.{Committed, Reservations, Underwriters, u64_max}
use edet.Kernel.Held.{Held}
use edet.Kernel.Held
use edet.Kernel.Capacity
use edet.Kernel.Capacity.{
  capacity, capacity_with_own_supply, conferrable, reserve, reserve_with_own_supply, release,
  supply_floor,
}
use edet.Kernel.Standing.{stake}
use edet.State.Journal.{Journal, raw_mut, touch, touch_each}
use edet.Map.Keys.{nat_ordered, pair_ordered}

pub data MemberStatus : Type 0 where
  active : MemberStatus
  suspended : MemberStatus
  exited : MemberStatus

-- The fields of `State` that the flow queries read and write. Of a member, the status alone;
-- `seat_price` is `params.bond_unit_minor()`.
pub record Ledger : Type 0 where
  pub members : Map ℕ MemberStatus
  pub next_member : ℕ
  pub edges : Journal (ℕ × ℕ) ℕ
  pub reserved : Journal (ℕ × ℕ) ℕ
  pub committed : Committed
  pub seat_reserved : Journal (ℕ × ℕ) ℕ
  pub seat_committed : Committed
  pub underwriters : Map ℕ ℕ
  pub seat_price : ℕ

-- `uw`: the underwriters in key order.
abbrev pub uw : Ledger → Underwriters
uw s = s.underwriters

abbrev pub flow_n : Ledger → ℕ
flow_n s = s.next_member

-- `matches!(m.status, MemberStatus::Active)` of a member that is there.
unfoldable pub is_active : Ledger → ℕ → Bool
is_active s id = elim (get id s.members) [ some active ↦ true | _ ↦ false ]

unfoldable pub capacity_of_set : Ledger → List ℕ → ℕ
unfolding capacity
capacity_of_set s ids =
    capacity s.edges.rows s.reserved.rows s.committed (uw s) ids (flow_n s) u64_max

unfoldable pub gross_capacity_of_set : Ledger → List ℕ → ℕ
unfolding capacity
gross_capacity_of_set s ids = capacity s.edges.rows [] [] (uw s) ids (flow_n s) u64_max

unfoldable pub capacity_raw : Ledger → ℕ → ℕ
unfolding capacity_of_set
capacity_raw s id = capacity_of_set s (id ∷ [])

unfoldable pub capacity_of_member : Ledger → ℕ → ℕ
unfolding capacity_raw is_active
capacity_of_member s id = if is_active s id then capacity_raw s id else 0

unfoldable pub conferrable_by : Ledger → ℕ → ℕ
unfolding conferrable
conferrable_by s id = conferrable s.edges.rows s.reserved.rows s.committed (uw s) id (flow_n s)

unfoldable pub seed_reach : Ledger → ℕ → ℕ
unfolding capacity
seed_reach s id =
    capacity s.edges.rows [] [] (uw s) (id ∷ []) (flow_n s) u64_max
    + or_else (get id s.underwriters) 0

unfoldable pub seat_reach : Ledger → ℕ → ℕ
unfolding capacity_with_own_supply
seat_reach s id =
    capacity_with_own_supply s.edges.rows s.seat_reserved.rows s.seat_committed (uw s) (id ∷ [])
      (flow_n s) u64_max

-- `(0..rows).all(…)` over the scratch copies of the two seat maps: it stops at the first refusal.
unfoldable pub all_seated : ℕ → Ledger → ℕ → Reservations → Committed → Bool
unfolding reserve_with_own_supply
all_seated zero s id reserved committed = true
all_seated (suc rows) s id reserved committed =
    let r =
      reserve_with_own_supply s.edges.rows reserved committed (uw s) id (flow_n s) s.seat_price in
    let rest = all_seated rows s id r.reserved r.committed in
    elim r.held [ none ↦ false | some _ ↦ rest ]

-- `can_seat_minor`
unfoldable pub can_seat : Ledger → ℕ → ℕ → Bool
unfolding capacity_with_own_supply all_seated
can_seat s id rows =
    let unit = s.seat_price in
    if rows == 0 || unit == 0
    then true
    else if rows == 1
    then leb unit (
        capacity_with_own_supply s.edges.rows s.seat_reserved.rows s.seat_committed (uw s) (id ∷ [])
          (flow_n s) unit)
    else all_seated rows s id s.seat_reserved.rows s.seat_committed

-- The keys that the loops after a reservation touch.
abbrev pub keys_of : {K : Type 0} → List (K × ℕ) → List K
keys_of [] = []
keys_of ((k, _) ∷ es) = k ∷ keys_of es

abbrev pub keys_held : Option Held → List (ℕ × ℕ)
keys_held none = []
keys_held (some h) = keys_of h.edges

-- `reserve_seat` past its first return.
unfoldable pub hold_seat : Ledger → ℕ → Option Held × Ledger
unfolding reserve_with_own_supply raw_mut touch_each
hold_seat s sponsor =
    let r =
      reserve_with_own_supply s.edges.rows s.seat_reserved.rows s.seat_committed (uw s) sponsor
        (flow_n s) s.seat_price in
    (
      r.held,
      record s {
        seat_reserved = touch_each (keys_held r.held) (raw_mut (λ _. r.reserved) s.seat_reserved);
        seat_committed = r.committed;
      },
    )

-- `reserve_seat`
unfoldable pub reserve_seat : Ledger → ℕ → Option Held × Ledger
unfolding hold_seat
reserve_seat s sponsor = if s.seat_price == 0 then (some Held.empty, s) else hold_seat s sponsor

-- `release_seat`
unfoldable pub release_seat : Ledger → Held → Ledger
unfolding release raw_mut touch_each
release_seat s held =
    let after = release s.seat_reserved.rows s.seat_committed held in
    record s {
      seat_reserved = raw_mut (λ _. after.0) (touch_each (keys_of held.edges) s.seat_reserved);
      seat_committed = after.1;
    }

-- `fits_capacity`, of an amount in minor units.
unfoldable pub fits_capacity : Ledger → ℕ → ℕ → Bool
unfolding is_active capacity
fits_capacity s debtor want =
    if is_active s debtor
    then want == 0
      || leb want
          (capacity s.edges.rows s.reserved.rows s.committed (uw s) (debtor ∷ []) (flow_n s) want)
    else false

-- `insurable_minor_after_release`
unfoldable pub insurable_after_release : Ledger → ℕ → ℕ → Held → ℕ
unfolding is_active release capacity
insurable_after_release s debtor want held =
    let after = release s.reserved.rows s.committed held in
    if want == 0
    then 0
    else if is_active s debtor
    then capacity s.edges.rows after.0 after.1 (uw s) (debtor ∷ []) (flow_n s) want
    else 0

-- `fits_capacity_minor_after_release`
unfoldable pub fits_capacity_after_release : Ledger → ℕ → ℕ → Held → Bool
unfolding insurable_after_release
fits_capacity_after_release s debtor want held =
    leb want (insurable_after_release s debtor want held)

-- `reserve_capacity_minor` past its first return.
unfoldable pub hold_capacity : Ledger → ℕ → ℕ → Option Held × Ledger
unfolding reserve raw_mut touch_each
hold_capacity s debtor want =
    let r = reserve s.edges.rows s.reserved.rows s.committed (uw s) debtor (flow_n s) want in
    (
      r.held,
      record s {
        reserved = touch_each (keys_held r.held) (raw_mut (λ _. r.reserved) s.reserved);
        committed = r.committed;
      },
    )

-- `reserve_capacity_minor`
unfoldable pub reserve_capacity : Ledger → ℕ → ℕ → Option Held × Ledger
unfolding hold_capacity
reserve_capacity s debtor want =
    if want == 0 then (some Held.empty, s) else hold_capacity s debtor want

-- `release_capacity`
unfoldable pub release_capacity : Ledger → Held → Ledger
unfolding release raw_mut touch_each
release_capacity s held =
    let after = release s.reserved.rows s.committed held in
    record s {
      reserved = raw_mut (λ _. after.0) (touch_each (keys_of held.edges) s.reserved);
      committed = after.1;
    }

-- `supply_floor`
unfoldable pub floor_of : Ledger → ℕ → ℕ
unfolding supply_floor
floor_of s underwriter = supply_floor s.committed underwriter

-- `record_stake`
unfoldable pub record_stake : Ledger → ℕ → ℕ → ℕ → ℕ → Ledger
unfolding stake raw_mut touch
record_stake s creditor debtor amount conferrable = record s {
  edges =
      raw_mut (λ edges. stake edges creditor debtor amount conferrable)
        (touch (creditor, debtor) s.edges);
}
