-- ===== src/Kernel/Network.antt =====
-- `Network` of crates/kernel/src/flow.rs: the residual network and its construction. A node that
-- takes no part has no slot: `none` stands for the mark `u32::MAX` of `slot_of`. A read past the
-- end of a vector, which panics in the source, gives the default that is written with it.
pub mod Counts
pub mod Place
pub mod Index
pub mod Arcs
pub mod Pending
pub mod Shape
use edet.Base.{
  ℕ, zero, suc, ◌+◌, ◌-◌, ◌/◌, ◌%◌, Bool, true, false, Option, none, some, List, [], ◌∷◌, ◌++◌,
  ◌&&◌, length, replicate, get_or, set, take, drop, ltb, ◌==◌, if◌then◌else◌, not,
}
use edet.Map.{amount_at}
use edet.Kernel.{Edges, Reservations, Committed, Underwriters, u64_max}
use edet.Kernel.Cursor
use edet.Kernel.Cursor.{ReservedCursor}
use edet.Kernel.Routes.{contains}
use edet.Map.Keys.{nat_ordered}

-- `UNBOUNDED`, the capacity of a sink arc.
abbrev pub unbounded : ℕ
unbounded = u64_max / 4

pub record Network : Type 0 where
  pub to : List ℕ
  pub cap : List ℕ
  pub tail : List ℕ
  pub head_start : List ℕ
  pub head_arcs : List ℕ
  pub ledger_arc : List ((ℕ × ℕ) × ℕ)
  pub supply_arc : List (ℕ × ℕ)
  pub src : ℕ
  pub snk : ℕ

-- The other direction of an arc, `a ^ 1`.
abbrev pub mate : ℕ → ℕ
mate a = if a % 2 == 0 then a + 1 else a - 1

-- The participants: `mark` after the loops over the stakes, the underwriters and the targets.
unfoldable pub mark_edges : ℕ → Edges → List Bool → List Bool
mark_edges n [] mark = mark
mark_edges n (((c, d), _) ∷ edges) mark =
    mark_edges n edges (if ltb c n && ltb d n then set (set mark c true) d true else mark)

unfoldable pub mark_ids : ℕ → List ℕ → List Bool → List Bool
mark_ids n [] mark = mark
mark_ids n (id ∷ ids) mark = mark_ids n ids (if ltb id n then set mark id true else mark)

abbrev pub ids_of : Underwriters → List ℕ
ids_of [] = []
ids_of ((u, _) ∷ uw) = u ∷ ids_of uw

-- The rank of each marked account, and how many there are.
unfoldable pub ranks : List Bool → ℕ → List (Option ℕ) × ℕ
ranks [] m = ([], m)
ranks (here ∷ mark) m =
    let (slots, count) = ranks mark (if here then m + 1 else m) in
    ((if here then some m else none) ∷ slots, count)

unfoldable pub slot : ℕ → List (Option ℕ) → ℕ → Option ℕ
slot n slot_of id = if ltb id n then get_or slot_of id none else none

-- `Network::arc`: a forward arc and its reverse, which carries nothing.
unfoldable pub arc : Network → ℕ → ℕ → ℕ → Network
arc net u v c = record net {
  to = net.to ++ v ∷ u ∷ [];
  cap = net.cap ++ c ∷ 0 ∷ [];
  tail = net.tail ++ u ∷ v ∷ [];
}

-- A stake arc and its entry in the table, where both ends take part: of the free capacity that the
-- cursor leaves.
unfoldable pub add_edge :
    ℕ → List (Option ℕ) → ℕ × ℕ → ℕ → ReservedCursor → Network → ReservedCursor × Network
unfolding slot arc
add_edge n slots (c, d) w held net = elim (slot n slots c) [
  | none ↦ (held, net)
  | some ci ↦ elim (slot n slots d) [
    | none ↦ (held, net)
    | some di ↦
        let (r, held') = Cursor.at (c, d) held in
        let net' = arc net ci di (w - r) in
        (held', record net' { ledger_arc = net'.ledger_arc ++ ((c, d), length net.to) ∷ [] })
  ]
]

-- The stake arcs, in key order.
unfoldable pub add_edges : ℕ → List (Option ℕ) → Edges → ReservedCursor → Network → Network
unfolding add_edge
add_edges n slots [] held net = net
add_edges n slots ((key, w) ∷ edges) held net =
    let (held', net') = add_edge n slots key w held net in add_edges n slots edges held' net'

-- A supply arc, of the uncommitted supply. Underwriters inside the measured set supply it nothing,
-- except in the write layer's reading.
unfoldable pub add_supplier :
    ℕ → List (Option ℕ) → Committed → List ℕ → Bool → ℕ → ℕ → Network → Network
unfolding slot arc contains
add_supplier n slots committed targets own_supply u supply net = elim (slot n slots u) [
  | none ↦ net
  | some ui ↦
      let net' = arc net net.src ui (supply - amount_at u committed) in
      if not own_supply && contains u targets
      then net
      else record net' { supply_arc = net'.supply_arc ++ (u, length net.to) ∷ [] }
]

-- The supply arcs, in underwriter order.
unfoldable pub add_supply :
    ℕ → List (Option ℕ) → Committed → List ℕ → Bool → Underwriters → Network → Network
unfolding add_supplier
add_supply n slots committed targets own_supply [] net = net
add_supply n slots committed targets own_supply ((u, supply) ∷ uw) net =
    add_supply n slots committed targets own_supply uw
      (add_supplier n slots committed targets own_supply u supply net)

unfoldable pub add_targets : ℕ → List (Option ℕ) → List ℕ → Network → Network
unfolding slot arc
add_targets n slots [] net = net
add_targets n slots (t ∷ targets) net =
    add_targets n slots targets
      (elim (slot n slots t) [ none ↦ net | some ti ↦ arc net ti net.snk unbounded ])

-- The counting sort of `Network::index`: the count of each tail one place up, the running sums,
-- and each arc put at its tail's cursor.
unfoldable pub count_tails : List ℕ → List ℕ → List ℕ
count_tails [] start = start
count_tails (t ∷ tail) start = count_tails tail (set start (t + 1) (get_or start (t + 1) 0 + 1))

unfoldable pub running_sums : ℕ → ℕ → List ℕ → List ℕ
running_sums zero i start = start
running_sums (suc k) i start =
    running_sums k (i + 1) (set start (i + 1) (get_or start (i + 1) 0 + get_or start i 0))

unfoldable pub place : List ℕ → ℕ → List ℕ → List ℕ → List ℕ
place [] id cursor arcs = arcs
place (t ∷ tail) id cursor arcs =
    place tail (id + 1) (set cursor t (get_or cursor t 0 + 1)) (set arcs (get_or cursor t 0) id)

unfoldable pub index : Network → ℕ → Network
unfolding count_tails running_sums place
index net nodes =
    let start = running_sums nodes 0 (count_tails net.tail (replicate (nodes + 1) 0)) in
    record net {
      head_start = start;
      head_arcs = place net.tail 0 start (replicate (length net.tail) 0);
    }

-- `Network::out`: the arcs leaving `u`, in creation order.
unfoldable pub out : Network → ℕ → List ℕ
out net u =
    let from = get_or net.head_start u 0 in
    take (get_or net.head_start (u + 1) 0 - from) (drop from net.head_arcs)

unfoldable pub participants : Edges → Underwriters → List ℕ → ℕ → List Bool
unfolding mark_edges mark_ids
participants edges uw targets n =
    mark_ids n targets (mark_ids n (ids_of uw) (mark_edges n edges (replicate n false)))

abbrev pub bare : ℕ → Network
bare m = record {
  to = [];
  cap = [];
  tail = [];
  head_start = [];
  head_arcs = [];
  ledger_arc = [];
  supply_arc = [];
  src = m;
  snk = m + 1;
}

-- The arcs of the network, before the adjacency is indexed.
unfoldable pub arcs_of :
    Edges → Reservations → Committed → Underwriters → List ℕ → ℕ → Bool → Network
unfolding participants ranks add_edges add_supply add_targets
arcs_of edges reserved committed uw targets n own_supply =
    let (slots, m) = ranks (participants edges uw targets n) 0 in
    add_targets n slots targets (
      add_supply n slots committed targets own_supply uw
        (add_edges n slots edges (Cursor.new reserved) (bare m)))

-- `Network::build`
unfoldable pub build : Edges → Reservations → Committed → Underwriters → List ℕ → ℕ → Bool → Network
unfolding arcs_of index
build edges reserved committed uw targets n own_supply =
    let net = arcs_of edges reserved committed uw targets n own_supply in index net (net.src + 2)
