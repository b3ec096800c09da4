-- ===== src/State/Ledger/Gate.antt =====
-- `fits_capacity` and `can_seat_minor` of crates/state/src/state.rs against the writes they gate.
use edet.Base.{
  ℕ, zero, suc, ◌≡◌, refl, ap, ◌∙◌, ◌≢◌, inl, inr, Bool, true, false, Option, none, some, [], ◌∷◌,
  arith, leb, ◌==◌, if◌then◌else◌, Bool-cases, Option-cases,
}
use edet.Map.Keys.{nat_ordered, pair_ordered}
use edet.Kernel.{Committed, Reservations}
use edet.Kernel.Held
use edet.Kernel.Held.{Held}
use edet.Kernel.Capacity.{capacity, reserve, reserve_inner, capacity_inner}
use edet.Kernel.Capacity.Agreement.{reserve_inner-refused}
use edet.Kernel.Capacity.{capacity_with_own_supply, reserve_with_own_supply}
use edet.State.Journal.{Journal, raw_mut, touch_each}
use edet.State.Journal.Changes.{rows-touch_each}
use edet.State.Ledger.{
  Ledger, keys_held, is_active, fits_capacity, hold_capacity, reserve_capacity, hold_seat,
  reserve_seat, can_seat, all_seated,
}

-- Whether flow was held.
abbrev pub granted : Option Held → Bool
granted none = false
granted (some _) = true

granted-reserve_inner :
    (s : Ledger) (r : Reservations) (c : Committed) (debtor amount : ℕ) (own_supply : Bool)
    → s.next_member ≢ 0
    → granted
        (reserve_inner s.edges.rows r c s.underwriters debtor s.next_member amount own_supply).held
      ≡ leb amount (
          capacity_inner s.edges.rows r c s.underwriters
            (debtor ∷ [])
            s.next_member
            amount
            own_supply)
granted-reserve_inner s r c debtor amount own_supply h =
    let ((to, from), _) =
      reserve_inner-refused s.edges.rows r c s.underwriters debtor s.next_member amount own_supply
        h in
    elim (Option-cases
      (reserve_inner s.edges.rows r c s.underwriters debtor s.next_member amount own_supply).held) [
        | inl refused ↦ ground (arith, refused, to refused)
        | inr (held, given) ↦ ground (arith, given, from)
      ]

-- An active debtor whose capacity is said to fit an amount is granted it by the reservation that
-- follows, and one who is said not to fit is refused. The ledger has an account.
pub fits_capacity-reserve_capacity :
    (s : Ledger) (debtor want : ℕ)
    → s.next_member ≢ 0
    → is_active s debtor ≡ true
    → fits_capacity s debtor want ≡ granted (reserve_capacity s debtor want).0
unfolding fits_capacity reserve_capacity hold_capacity reserve capacity
fits_capacity-reserve_capacity s debtor want h a =
    ground (arith, a, granted-reserve_inner s s.reserved.rows s.committed debtor want false h)

-- The seats of one trade, taken one after another as long as they are granted.
unfoldable pub seat_each : ℕ → Ledger → ℕ → Bool
unfolding reserve_seat
seat_each zero s id = true
seat_each (suc rows) s id =
    let (held, s') = reserve_seat s id in
    let rest = seat_each rows s' id in elim held [ none ↦ false | some _ ↦ rest ]

-- The scratch run reads no seat map but its own two.
all_seated_other :
    (rows : ℕ) (s : Ledger) (x : Journal (ℕ × ℕ) ℕ) (y : Committed) (id : ℕ) (r : Reservations)
    (c : Committed)
    → all_seated rows (record s { seat_reserved = x; seat_committed = y }) id r c
      ≡ all_seated rows s id r c
unfolding all_seated
all_seated_other zero s x y id r c = refl
all_seated_other (suc rows) s x y id r c =
    let next =
      reserve_with_own_supply s.edges.rows r c s.underwriters id s.next_member s.seat_price in
    ap (λ b. elim next.held [ none ↦ false | some _ ↦ b ])
      (all_seated_other rows s x y id next.reserved next.committed)

reserve_seat_priced :
    (s : Ledger) (id : ℕ) → s.seat_price == 0 ≡ false → reserve_seat s id ≡ hold_seat s id
unfolding reserve_seat
reserve_seat_priced s id p = ap (λ b. if b then (some Held.empty, s) else hold_seat s id) p

reserve_seat_free :
    (s : Ledger) (id : ℕ)
    → s.seat_price == 0 ≡ true
    → let kept : Option Held × Ledger = (some Held.empty, s) in reserve_seat s id ≡ kept
unfolding reserve_seat
reserve_seat_free s id p = ap (λ b. if b then (some Held.empty, s) else hold_seat s id) p

-- The later seats of a trade, after the first.
abbrev seats_left : ℕ → ℕ → Option Held × Ledger → Bool
seats_left rows id x = elim x.0 [ none ↦ false | some _ ↦ seat_each rows x.1 id ]

seat_each-suc :
    (rows : ℕ) (s : Ledger) (id : ℕ)
    → seat_each (suc rows) s id ≡ seats_left rows id (reserve_seat s id)
unfolding seat_each
seat_each-suc rows s id = refl

seat_each-all_seated :
    (rows : ℕ) (s : Ledger) (id : ℕ)
    → s.seat_price == 0 ≡ false
    → seat_each rows s id ≡ all_seated rows s id s.seat_reserved.rows s.seat_committed
unfolding seat_each all_seated hold_seat raw_mut
seat_each-all_seated zero s id p = refl
seat_each-all_seated (suc rows) s id p =
    let r =
      reserve_with_own_supply s.edges.rows s.seat_reserved.rows s.seat_committed s.underwriters id
        s.next_member s.seat_price in
    let x = touch_each (keys_held r.held) (raw_mut (λ _. r.reserved) s.seat_reserved) in
    let s' : Ledger = record s { seat_reserved = x; seat_committed = r.committed } in
    let same : seat_each rows s' id ≡ all_seated rows s id r.reserved r.committed =
      seat_each-all_seated rows s' id p
      ∙ all_seated_other rows s x r.committed id x.rows r.committed
      ∙ ap (λ (m : Reservations). all_seated rows s id m r.committed)
          (rows-touch_each (keys_held r.held) (raw_mut (λ _. r.reserved) s.seat_reserved)) in
    seat_each-suc rows s id
    ∙ ap (seats_left rows id) (reserve_seat_priced s id p)
    ∙ ap (λ (b : Bool). elim r.held [ none ↦ false | some _ ↦ b ]) same

seat_each_free :
    (rows : ℕ) (s : Ledger) (id : ℕ) → s.seat_price == 0 ≡ true → seat_each rows s id ≡ true
unfolding seat_each
seat_each_free zero s id p = refl
seat_each_free (suc rows) s id p =
    seat_each-suc rows s id
    ∙ ap (seats_left rows id) (reserve_seat_free s id p)
    ∙ seat_each_free rows s id p

all_seated_none :
    (s : Ledger) (id : ℕ) (r : Reservations) (c : Committed) → all_seated 0 s id r c ≡ true
unfolding all_seated
all_seated_none s id r c = refl

-- One seat is asked as one capacity.
seat_each_one :
    (s : Ledger) (id : ℕ)
    → s.next_member ≢ 0
    → all_seated 1 s id s.seat_reserved.rows s.seat_committed
      ≡ leb s.seat_price (
          capacity_with_own_supply s.edges.rows s.seat_reserved.rows s.seat_committed s.underwriters
            (id ∷ [])
            s.next_member
            s.seat_price)
unfolding all_seated reserve_with_own_supply capacity_with_own_supply
seat_each_one s id h =
    ground
      (arith, granted-reserve_inner s s.seat_reserved.rows s.seat_committed id s.seat_price true h)

-- The gate answers what the write will do: so many seats are said to fit an account's reach exactly
-- when taking them one after another is granted every time. The ledger has an account.
pub can_seat-seat_each :
    (s : Ledger) (id rows : ℕ) → s.next_member ≢ 0 → can_seat s id rows ≡ seat_each rows s id
unfolding can_seat
can_seat-seat_each s id rows h = elim (Bool-cases (s.seat_price == 0)) [
  | inl free ↦ ground (arith, free, seat_each_free rows s id free)
  | inr priced ↦ ground (
    arith,
    priced,
    seat_each-all_seated rows s id priced,
    seat_each_one s id h,
    all_seated_none s id,
  )
]
