-- ===== src/Kernel/Network/Shape.antt =====
-- What `add_edges`, `add_supply` and `add_targets` leave in the tables of the network.
use edet.Base.{
  ℕ, ◌-◌, ◌≡◌, Option, List, [], ◌∷◌, ◌++◌, arith, length, Option-cases, inl, inr, refl, Bool,
  Bool-cases, not, ◌&&◌,
}
use edet.Map.{amount_at, IsSorted}
use edet.Map.Keys.{nat_ordered, pair_ordered}
use edet.Map.Laws.{cmp_self, lt-of-Above, get-cons_later}
use edet.Kernel.{Edges, Reservations, Underwriters, Committed}
use edet.Kernel.Cursor
use edet.Kernel.Cursor.{ReservedCursor}
use edet.Kernel.Cursor.Lookup.{at-lookup}
use edet.Kernel.Network.{
  Network, unbounded, slot, arc, add_edge, add_edges, add_targets, build, arcs_of, index,
  add_supplier, add_supply, ranks, participants, bare,
}
use edet.Kernel.Network.Arcs.{Tabled-push}
use edet.Kernel.Network.Pending.{
  Pending-head, Pending-skip, Tables, arc-Tables, left, Pending, Pending-push, InStep, bare-Tables,
  Pending-all,
}
use edet.Kernel.Routes.{contains}

module _ (n : ℕ) (slots : List (Option ℕ)) (all : Edges) (reserved : Reservations) (g : ℕ → ℕ) where
  -- The state of the loop over the stakes.
  record Adding (edges : Edges) (held : ReservedCursor) (net : Network) : Type 0 where
    tables : Tables net (left all reserved) g
    pending : Pending edges net.ledger_arc (λ k. amount_at k all)
    cursor : IsSorted held
    in_step : InStep edges held reserved

  Adding-skip :
      (key : ℕ × ℕ) (w : ℕ) (edges : Edges) (held : ReservedCursor) (net : Network)
      → Adding ((key, w) ∷ edges) held net
      → Adding edges held net
  Adding-skip key w edges held net a = record {
    tables = a.tables;
    pending = Pending-skip key w edges net.ledger_arc _ a.pending;
    cursor = a.cursor;
    in_step = λ k v e. a.in_step k v (get-cons_later key k w v edges a.pending.sorted.0 e);
  }

  -- The network with an arc added and entered in the table of stakes.
  abbrev tabled_arc : Network → ℕ → ℕ → ℕ → ℕ × ℕ → Network
  tabled_arc net u v c key = record (arc net u v c) {
    ledger_arc = (arc net u v c).ledger_arc ++ (key, length net.to) ∷ [];
  }

  Adding-push :
      (key : ℕ × ℕ) (w u v : ℕ) (edges : Edges) (held : ReservedCursor) (net : Network)
      → Adding ((key, w) ∷ edges) held net
      → let (r, held') = Cursor.at key held in Adding edges held' (tabled_arc net u v (w - r) key)
  unfolding arc
  Adding-push key w u v edges held net a =
      let (r, sorted, later) = at-lookup key held a.cursor in
      let (below, reads) = Pending-head key w edges net.ledger_arc _ a.pending in
      let c = w - (Cursor.at key held).0 in
      let more = arc-Tables net u v c (left all reserved) g a.tables in
      record {
        tables = record {
          even = more.even;
          ledger =
              Tabled-push key (length net.to) c net.ledger_arc net.cap (left all reserved) below
                (ground (arith, r, reads, a.in_step key w, cmp_self key)) a.tables.even
                a.tables.ledger;
          supply = more.supply;
        };
        pending = Pending-push key w (length net.to) edges net.ledger_arc _ a.pending;
        cursor = sorted;
        in_step = λ k v e. ground (
          arith,
          later k (lt-of-Above key k v edges a.pending.sorted.0 e),
          a.in_step k v (get-cons_later key k w v edges a.pending.sorted.0 e),
        );
      }

  add_edge-Adding :
      (key : ℕ × ℕ) (w : ℕ) (edges : Edges) (held : ReservedCursor) (net : Network)
      → Adding ((key, w) ∷ edges) held net
      → let (held', net') = add_edge n slots key w held net in Adding edges held' net'
  unfolding add_edge
  add_edge-Adding key w edges held net a = elim (Option-cases (slot n slots key.0)) [
    | inl ec ↦ rw (ec, add_edge) (Adding-skip key w edges held net a)
    | inr (ci, ec) ↦ elim (Option-cases (slot n slots key.1)) [
      | inl ed ↦ rw (ec, ed, add_edge) (Adding-skip key w edges held net a)
      | inr (di, ed) ↦ rw (ec, ed, add_edge) (Adding-push key w ci di edges held net a)
    ]
  ]

  add_edges-Tables :
      (edges : Edges) (held : ReservedCursor) (net : Network)
      → Adding edges held net
      → Tables (add_edges n slots edges held net) (left all reserved) g
  unfolding add_edges
  add_edges-Tables [] held net a = a.tables
  add_edges-Tables ((key, w) ∷ edges) held net a =
      let (held', net') = add_edge n slots key w held net in
      add_edges-Tables edges held' net' (add_edge-Adding key w edges held net a)

add_edges-supply_arc :
    (n : ℕ) (slots : List (Option ℕ)) (edges : Edges) (held : ReservedCursor) (net : Network)
    → (add_edges n slots edges held net).supply_arc ≡ net.supply_arc
unfolding add_edges add_edge arc
add_edges-supply_arc n slots [] held net = refl
add_edges-supply_arc n slots ((key, w) ∷ edges) held net =
    let (held', net') = add_edge n slots key w held net in
    ground (arith, add_edges-supply_arc n slots edges held' net')

module _ (n : ℕ) (slots : List (Option ℕ)) (all : Underwriters) (committed : Committed)
    (targets : List ℕ) (own_supply : Bool) (f : ℕ × ℕ → ℕ) where
  record Supplying (uw : Underwriters) (net : Network) : Type 0 where
    tables : Tables net f (left all committed)
    pending : Pending uw net.supply_arc (λ u. amount_at u all)

  Supplying-skip :
      (u supply : ℕ) (uw : Underwriters) (net : Network)
      → Supplying ((u, supply) ∷ uw) net
      → Supplying uw net
  Supplying-skip u supply uw net a = record {
    tables = a.tables;
    pending = Pending-skip u supply uw net.supply_arc _ a.pending;
  }

  add_supplier-Supplying :
      (u supply : ℕ) (uw : Underwriters) (net : Network)
      → Supplying ((u, supply) ∷ uw) net
      → Supplying uw (add_supplier n slots committed targets own_supply u supply net)
  unfolding add_supplier arc
  add_supplier-Supplying u supply uw net a = elim (Option-cases (slot n slots u)) [
    | inl e ↦ rw (e, add_supplier) (Supplying-skip u supply uw net a)
    | inr (ui, e) ↦ elim (Bool-cases (not own_supply && contains u targets)) [
      | inl inside ↦ rw (e, inside, add_supplier) (Supplying-skip u supply uw net a)
      | inr outside ↦
          let (below, reads) = Pending-head u supply uw net.supply_arc _ a.pending in
          let c = supply - amount_at u committed in
          let more = arc-Tables net net.src ui c f (left all committed) a.tables in
          rw (e, outside, add_supplier)
            (record {
              tables = record {
                even = more.even;
                ledger = more.ledger;
                supply =
                    Tabled-push u (length net.to) c net.supply_arc net.cap (left all committed)
                      below (ground (arith, reads)) a.tables.even a.tables.supply;
              };
              pending = Pending-push u supply (length net.to) uw net.supply_arc _ a.pending;
            })
    ]
  ]

  add_supply-Tables :
      (uw : Underwriters) (net : Network)
      → Supplying uw net
      → Tables (add_supply n slots committed targets own_supply uw net) f (left all committed)
  unfolding add_supply
  add_supply-Tables [] net a = a.tables
  add_supply-Tables ((u, supply) ∷ uw) net a =
      add_supply-Tables uw (add_supplier n slots committed targets own_supply u supply net)
        (add_supplier-Supplying u supply uw net a)

add_targets-Tables :
    (n : ℕ) (slots : List (Option ℕ)) (targets : List ℕ) (f : ℕ × ℕ → ℕ) (g : ℕ → ℕ) (net : Network)
    → Tables net f g
    → Tables (add_targets n slots targets net) f g
unfolding add_targets
add_targets-Tables n slots [] f g net t = t
add_targets-Tables n slots (x ∷ targets) f g net t = elim (Option-cases (slot n slots x)) [
  | inl e ↦ rw (e, add_targets) (add_targets-Tables n slots targets f g net t)
  | inr (xi, e) ↦
      rw (e, add_targets)
        (add_targets-Tables n slots targets f g (arc net xi net.snk unbounded)
          (arc-Tables net xi net.snk unbounded f g t))
]

-- The built network's two tables: in key order, and each arc carries its edge less what is reserved
-- on it, or its supply less what is committed.
pub build-Tables :
    (edges : Edges) (reserved : Reservations) (committed : Committed) (uw : Underwriters)
    (targets : List ℕ) (n : ℕ) (own_supply : Bool)
    → IsSorted edges
    → IsSorted reserved
    → IsSorted uw
    → Tables
        (build edges reserved committed uw targets n own_supply)
        (left edges reserved)
        (left uw committed)
unfolding build arcs_of index
build-Tables edges reserved committed uw targets n own_supply se sr su =
    let (slots, m) = ranks (participants edges uw targets n) 0 in
    let net = add_edges n slots edges (Cursor.new reserved) (bare m) in
    let e : net.supply_arc ≡ [] =
      add_edges-supply_arc n slots edges (Cursor.new reserved) (bare m) in
    let stakes : Tables net (left edges reserved) (left uw committed) =
      add_edges-Tables n slots edges reserved (left uw committed) edges reserved (bare m) (record {
        tables = bare-Tables m (left edges reserved) (left uw committed);
        pending = Pending-all edges [] (λ k. tt) se;
        cursor = sr;
        in_step = λ k v _. refl;
      }) in
    let supplies =
      add_supply-Tables n slots uw committed targets own_supply (left edges reserved) uw net
        (record { tables = stakes; pending = Pending-all uw net.supply_arc (λ k. rw e tt) su }) in
    let t =
      add_targets-Tables n slots targets (left edges reserved) (left uw committed)
        (add_supply n slots committed targets own_supply uw net) supplies in
    record { even = t.even; ledger = t.ledger; supply = t.supply }
