-- ===== src/State/Ledger/Restored.antt =====
-- `release_capacity` of crates/state/src/state.rs after `reserve_capacity_minor`.
use edet.Base.{ℕ, ◌≡◌, refl, sym, ap, ◌∙◌, false, Option, some, arith, ◌==◌}
use edet.Map.{IsSorted}
use edet.Map.Keys.{nat_ordered, pair_ordered}
use edet.Map.Amounts.{IsPositive, retain_id}
use edet.Kernel.Held.{Held}
use edet.Kernel.Held
use edet.Kernel.Capacity.{reserve, release, give_back}
use edet.Kernel.Capacity.Release.{release-reserve_inner}
use edet.State.Journal.{raw_mut}
use edet.State.Journal.Changes.{rows-touch_each}
use edet.Base.{either}
use edet.State.Ledger.{
  Ledger, keys_held, hold_capacity, reserve_capacity, release_capacity, Reservations, Committed,
}

-- What the ledger holds of credit is in order and has no empty entry.
pub record IsTidy (s : Ledger) : Type 0 where
  pub sorted : IsSorted s.reserved.rows
  pub positive : IsPositive s.reserved.rows
  pub committed_sorted : IsSorted s.committed
  pub committed_positive : IsPositive s.committed

-- What is held of credit, and of seats.
abbrev pub credit_of : Ledger → Reservations × Committed
credit_of s = (s.reserved.rows, s.committed)

abbrev pub seats_of : Ledger → Reservations × Committed
seats_of s = (s.seat_reserved.rows, s.seat_committed)

hold_capacity-rows :
    (s : Ledger) (debtor want : ℕ)
    → let r =
        reserve s.edges.rows s.reserved.rows s.committed s.underwriters debtor s.next_member want in
      (hold_capacity s debtor want).0 ≡ r.held
      × credit_of (hold_capacity s debtor want).1 ≡ (r.reserved, r.committed)
unfolding hold_capacity raw_mut
hold_capacity-rows s debtor want =
    let r =
      reserve s.edges.rows s.reserved.rows s.committed s.underwriters debtor s.next_member want in
    (
      refl,
      ap (λ (m : Reservations). (m, r.committed))
          (rows-touch_each (keys_held r.held) (raw_mut (λ _. r.reserved) s.reserved)),
    )

release_capacity-credit :
    (s : Ledger) (held : Held)
    → credit_of (release_capacity s held) ≡ release s.reserved.rows s.committed held
unfolding release_capacity raw_mut
release_capacity-credit s held = refl

release-empty :
    (r : Reservations) (c : Committed)
    → IsPositive r
    → IsPositive c
    → release r c Held.empty ≡ (r, c)
unfolding release give_back
release-empty r c p q = ground (arith, retain_id r p, retain_id c q)

release_capacity-hold_capacity :
    (s : Ledger) (debtor want : ℕ) (held : Held)
    → IsTidy s
    → (hold_capacity s debtor want).0 ≡ some held
    → credit_of (release_capacity (hold_capacity s debtor want).1 held) ≡ credit_of s
unfolding reserve
release_capacity-hold_capacity s debtor want held t e =
    let (same, rows) = hold_capacity-rows s debtor want in
    release_capacity-credit (hold_capacity s debtor want).1 held
    ∙ ap (λ (x : Reservations × Committed). release x.0 x.1 held) rows
    ∙ release-reserve_inner s.edges.rows s.reserved.rows s.committed s.underwriters debtor
        s.next_member want false held t.sorted t.positive t.committed_sorted t.committed_positive
        (sym same ∙ e)

release_capacity-empty :
    (s : Ledger) (held : Held)
    → IsTidy s
    → some Held.empty ≡ some held
    → credit_of (release_capacity s held) ≡ credit_of s
release_capacity-empty s held t e =
    let same : Held.empty ≡ held = cc in
    release_capacity-credit s held
    ∙ rw⁻¹ same (release-empty s.reserved.rows s.committed t.positive t.committed_positive)

-- Giving back what a reservation returned restores the reservations and the commitments of the
-- ledger, where they are in order and hold no empty entry.
pub release_capacity-reserve_capacity :
    (s : Ledger) (debtor want : ℕ) (held : Held)
    → IsTidy s
    → (reserve_capacity s debtor want).0 ≡ some held
    → credit_of (release_capacity (reserve_capacity s debtor want).1 held) ≡ credit_of s
unfolding reserve_capacity
release_capacity-reserve_capacity s debtor want held t e =
    either
      (λ (x : Option Held × Ledger).
        x.0 ≡ some held → credit_of (release_capacity x.1 held) ≡ credit_of s)
      (want == 0) (some Held.empty, s) (hold_capacity s debtor want)
      (release_capacity-empty s held t) (release_capacity-hold_capacity s debtor want held t) e
