-- ===== src/Kernel/Capacity/Bounds.antt =====
-- `reserve` of crates/kernel/src/flow.rs against the stakes and the supplies it is taken from.
use edet.Base.{
  none, some, ℕ, Option, List, Bool, some, ◌-◌, ◌≤◌, Option-cases, ◌∷◌, ◌≡◌, [], arith, inl, inr,
  refl,
}
use edet.Kernel.{Edges, Reservations, Underwriters, Committed}
use edet.Kernel.Capacity.{reserve_inner, charge, cap_at, flow, add_at}
use edet.Map.Keys.{Ordered, pair_ordered, nat_ordered}
use edet.Map.{Map, IsSorted, amount_at, get}
use edet.Kernel.Network.Arcs.{Tabled}
use edet.Kernel.Network.{build}
use edet.Map.Amounts.{charged}
use edet.Kernel.Capacity.Release.{amount_at-charge}
use edet.Kernel.Network.Shape.{build-Tables}
use edet.Map.Laws.{get-Above}

-- What one key's arc gave up.
abbrev given_up : Option ℕ → List ℕ → List ℕ → ℕ
given_up none before after = 0
given_up (some a) before after = cap_at before a - cap_at after a

module _ {K : Type 0} ⦃o : Ordered K⦄ where
  charged-charge :
      (j : K) (arcs : List (K × ℕ)) (before after : List ℕ) (m : Map K ℕ)
      → IsSorted arcs
      → charged j (charge arcs before after m).1 ≡ given_up (get j arcs) before after
  unfolding charge
  charged-charge j [] before after m h = refl
  charged-charge j ((key, a) ∷ arcs) before after m h =
      let used = cap_at before a - cap_at after a in
      ground (
        arith,
        charged-charge j arcs before after m h.1,
        charged-charge j arcs before after (add_at key used m) h.1,
        get-Above key arcs h.0,
        o.eq_iff j key,
      )

  -- What a table's arcs can give up is what was free, so the total stays within the whole.
  charge-within :
      (whole : K → ℕ) (arcs : Map K ℕ) (before after : List ℕ) (m : Map K ℕ) (j : K)
      → Tabled arcs before (λ k. whole k - amount_at k m)
      → amount_at j m ≤ whole j
      → amount_at j (charge arcs before after m).0 ≤ whole j
  charge-within whole arcs before after m j t h = elim (Option-cases (get j arcs)) [
    | inl e ↦ ground (
      arith,
      amount_at-charge j arcs before after m,
      charged-charge j arcs before after m t.sorted,
      e,
    )
    | inr (a, e) ↦ ground (
      arith,
      amount_at-charge j arcs before after m,
      charged-charge j arcs before after m t.sorted,
      e,
      t.caps j a e,
    )
  ]

-- What the reservations and the commitments may not pass.
pub record Within (edges : Edges) (uw : Underwriters) (reserved : Reservations)
    (committed : Committed) : Type 0 where
  pub stakes : (k : ℕ × ℕ) → amount_at k reserved ≤ amount_at k edges
  pub supplies : (u : ℕ) → amount_at u committed ≤ amount_at u uw

-- Whether the reservation is granted or refused, no stake edge then carries more than its stake and
-- no supply arc more than was declared, if none did before. The maps are in key order, as ordered
-- maps are.
pub reserve_inner-Within :
    (edges : Edges) (reserved : Reservations) (committed : Committed) (uw : Underwriters)
    (debtor n amount : ℕ) (own_supply : Bool)
    → IsSorted edges
    → IsSorted reserved
    → IsSorted uw
    → Within edges uw reserved committed
    → let r = reserve_inner edges reserved committed uw debtor n amount own_supply in
      Within edges uw r.reserved r.committed
unfolding reserve_inner
reserve_inner-Within edges reserved committed uw debtor n amount own_supply se sr su w =
    let net = build edges reserved committed uw (debtor ∷ []) n own_supply in
    let after = (flow net amount).1.cap in
    let t = build-Tables edges reserved committed uw (debtor ∷ []) n own_supply se sr su in
    record {
      stakes = λ k. ground (
        arith,
        charge-within (λ j. amount_at j edges) net.ledger_arc net.cap after reserved k t.ledger
            (w.stakes k),
        w.stakes k,
      );
      supplies = λ u. ground (
        arith,
        charge-within (λ j. amount_at j uw) net.supply_arc net.cap after committed u t.supply
            (w.supplies u),
        w.supplies u,
      );
    }
