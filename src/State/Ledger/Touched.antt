-- ===== src/State/Ledger/Touched.antt =====
-- The keys that the kernel writes in the ledger's journals, and those that the ledger touches.
use edet.Base.{
  ℕ, ◌+◌, ◌-◌, min, max, ◌≡◌, refl, sym, ap, ◌∙◌, inl, inr, Bool, true, false, Option, some, List,
  [], ◌∷◌, arith, ltb, ◌==◌, Bool-cases,
}
use edet.Base.{either}
use edet.Map.{Map, get, update, retain, amount_at, IsSorted}
use edet.Map.Keys.{Ordered, nat_ordered, pair_ordered}
use edet.Map.Laws.{get-insert, get-update, get-retain, retain-IsSorted, insert-IsSorted}
use edet.Map.Amounts.{IsPositive, retain_id}
use edet.Kernel.Routes.{add_at}
use edet.Kernel.Search.{cap_at, flow}
use edet.Kernel.Capacity.{
  charge, give_back, nonzero, reserve_inner, release, reserve, reserve_with_own_supply,
}
use edet.Kernel.Capacity.Release.{give_back-IsSorted, charge-IsSorted}
use edet.State.Journal.Changes.{Unlisted, Tracks, raw_mut-Tracks, raw_mut-touch_each}
use edet.Kernel.Held
use edet.State.Ledger.{
  Ledger, keys_of, keys_held, hold_capacity, hold_seat, reserve_capacity, release_capacity,
  reserve_seat, release_seat, record_stake,
}
use edet.Kernel.{Edges, Reservations, Committed, Underwriters}
use edet.Kernel.Standing.{stake}
use edet.Kernel.Network.{build}
use edet.Kernel.Held.{Held}
use edet.State.Journal.{touch_each}

module _ {K : Type 0} ⦃o : Ordered K⦄ where
  get-charge :
      (i : K) (arcs : List (K × ℕ)) (before after : List ℕ) (m : Map K ℕ)
      → Unlisted i (keys_of (charge arcs before after m).1)
      → get i (charge arcs before after m).0 ≡ get i m
  unfolding charge
  get-charge i [] before after m h = refl
  get-charge i ((key, a) ∷ arcs) before after m h =
      let used = cap_at before a - cap_at after a in
      ground (
        arith,
        o.eq_iff i key,
        get-insert i key (amount_at key m + used) m,
        get-charge i arcs before after (add_at key used m),
        get-charge i arcs before after m,
        h,
      )

  get-give_back :
      (i : K) (es : List (K × ℕ)) (m : Map K ℕ)
      → Unlisted i (keys_of es)
      → get i (give_back es m) ≡ get i m
  unfolding give_back
  get-give_back i [] m h = refl
  get-give_back i ((key, v) ∷ es) m h = ground (
    arith,
    o.eq_iff i key,
    get-update i key (λ r. r - v) m,
    get-give_back i es (update key (λ r. r - v) m) h.1,
    h.0,
  )

  get-retain-give_back :
      (i : K) (es : List (K × ℕ)) (m : Map K ℕ)
      → IsSorted m
      → IsPositive m
      → Unlisted i (keys_of es)
      → get i (retain nonzero (give_back es m)) ≡ get i m
  get-retain-give_back i es m s p h =
      get-retain i nonzero (give_back es m) (give_back-IsSorted es m s)
      ∙ rw (get-give_back i es m h) (sym (get-retain i nonzero m s) ∙ ap (get i) (retain_id m p))

-- A reservation writes the keys of what it returns.
reserve_inner-Touched :
    (edges : Edges) (reserved : Reservations) (committed : Committed) (uw : Underwriters)
    (debtor n amount : ℕ) (own_supply : Bool)
    → IsSorted reserved
    → let r = reserve_inner edges reserved committed uw debtor n amount own_supply in
      IsSorted r.reserved
      × ((i : ℕ × ℕ) → Unlisted i (keys_held r.held) → get i r.reserved ≡ get i reserved)
unfolding reserve_inner
reserve_inner-Touched edges reserved committed uw debtor n amount own_supply s =
    let net = build edges reserved committed uw (debtor ∷ []) n own_supply in
    let after = (flow net amount).1 in
    elim (Bool-cases (amount == 0)) [
      | inl none_wanted ↦ rw none_wanted (s, λ i h. refl)
      | inr wanted ↦ rw wanted (elim (Bool-cases (ltb (flow net amount).0 amount)) [
        | inl short ↦ rw short (s, λ i h. refl)
        | inr enough ↦ rw enough (
          charge-IsSorted net.ledger_arc net.cap after.cap reserved s,
          λ i h. get-charge i net.ledger_arc net.cap after.cap reserved h,
        )
      ])
    ]

hold_capacity-Tracks :
    (old : Reservations) (s : Ledger) (debtor want : ℕ)
    → Tracks old s.reserved
    → Tracks old (hold_capacity s debtor want).1.reserved
unfolding hold_capacity reserve
hold_capacity-Tracks old s debtor want t =
    let r =
      reserve s.edges.rows s.reserved.rows s.committed s.underwriters debtor s.next_member want in
    let (sorted, same) =
      reserve_inner-Touched s.edges.rows s.reserved.rows s.committed s.underwriters debtor
        s.next_member want false t.sorted in
    raw_mut-Tracks old (λ _. r.reserved) (keys_held r.held) s.reserved t sorted same

-- If the journal accounted for every change to the reservations, it still does after flow is held
-- for an obligation.
pub reserve_capacity-Tracks :
    (old : Reservations) (s : Ledger) (debtor want : ℕ)
    → Tracks old s.reserved
    → Tracks old (reserve_capacity s debtor want).1.reserved
unfolding reserve_capacity
reserve_capacity-Tracks old s debtor want t =
    either (λ (x : Option Held × Ledger). Tracks old x.1.reserved) (want == 0) (some Held.empty, s)
      (hold_capacity s debtor want) t (hold_capacity-Tracks old s debtor want t)

hold_seat-Tracks :
    (old : Reservations) (s : Ledger) (sponsor : ℕ)
    → Tracks old s.seat_reserved
    → Tracks old (hold_seat s sponsor).1.seat_reserved
unfolding hold_seat reserve_with_own_supply
hold_seat-Tracks old s sponsor t =
    let r =
      reserve_with_own_supply s.edges.rows s.seat_reserved.rows s.seat_committed s.underwriters
        sponsor s.next_member s.seat_price in
    let (sorted, same) =
      reserve_inner-Touched s.edges.rows s.seat_reserved.rows s.seat_committed s.underwriters
        sponsor s.next_member s.seat_price true t.sorted in
    raw_mut-Tracks old (λ _. r.reserved) (keys_held r.held) s.seat_reserved t sorted same

pub reserve_seat-Tracks :
    (old : Reservations) (s : Ledger) (sponsor : ℕ)
    → Tracks old s.seat_reserved
    → Tracks old (reserve_seat s sponsor).1.seat_reserved
unfolding reserve_seat
reserve_seat-Tracks old s sponsor t =
    either (λ (x : Option Held × Ledger). Tracks old x.1.seat_reserved) (s.seat_price == 0)
      (some Held.empty, s) (hold_seat s sponsor) t (hold_seat-Tracks old s sponsor t)

-- If the journal accounted for every change to the reservations and none of them is empty, it still
-- accounts for every change after flow is given back.
pub release_capacity-Tracks :
    (old : Reservations) (s : Ledger) (held : Held)
    → IsPositive s.reserved.rows
    → Tracks old s.reserved
    → Tracks old (release_capacity s held).reserved
unfolding release_capacity release
release_capacity-Tracks old s held p t =
    rw
      (raw_mut-touch_each (λ _. retain nonzero (give_back held.edges s.reserved.rows))
        (keys_of held.edges) s.reserved)
      (raw_mut-Tracks old (λ _. retain nonzero (give_back held.edges s.reserved.rows))
        (keys_of held.edges) s.reserved t
        (retain-IsSorted nonzero _ (give_back-IsSorted held.edges s.reserved.rows t.sorted))
        (λ i h. get-retain-give_back i held.edges s.reserved.rows t.sorted p h))

pub release_seat-Tracks :
    (old : Reservations) (s : Ledger) (held : Held)
    → IsPositive s.seat_reserved.rows
    → Tracks old s.seat_reserved
    → Tracks old (release_seat s held).seat_reserved
unfolding release_seat release
release_seat-Tracks old s held p t =
    rw
      (raw_mut-touch_each (λ _. retain nonzero (give_back held.edges s.seat_reserved.rows))
        (keys_of held.edges) s.seat_reserved)
      (raw_mut-Tracks old (λ _. retain nonzero (give_back held.edges s.seat_reserved.rows))
        (keys_of held.edges) s.seat_reserved t
        (retain-IsSorted nonzero _ (give_back-IsSorted held.edges s.seat_reserved.rows t.sorted))
        (λ i h. get-retain-give_back i held.edges s.seat_reserved.rows t.sorted p h))

-- If the journal accounted for every change to the stakes, it still does after a settlement is
-- recorded.
pub record_stake-Tracks :
    (old : Edges) (s : Ledger) (creditor debtor amount conferrable : ℕ)
    → Tracks old s.edges
    → Tracks old (record_stake s creditor debtor amount conferrable).edges
unfolding record_stake stake touch_each
record_stake-Tracks old s creditor debtor amount conferrable t =
    let key : ℕ × ℕ = (creditor, debtor) in
    let edges = s.edges.rows in
    let v = max (amount_at key edges) (min amount conferrable) in
    rw (raw_mut-touch_each (λ m. stake m creditor debtor amount conferrable) (key ∷ []) s.edges) (
      raw_mut-Tracks old (λ m. stake m creditor debtor amount conferrable) (key ∷ []) s.edges t
        (ground (arith, insert-IsSorted key v edges t.sorted, t.sorted))
        (λ i h. ground (arith, get-insert i key v edges, pair_ordered.eq_iff i key, h.0)))
