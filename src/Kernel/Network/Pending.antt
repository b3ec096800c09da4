-- ===== src/Kernel/Network/Pending.antt =====
-- The loops that fill the tables of the network: what is pending, and what the tables say so far.
use edet.Base.{ℕ, arith, length, length-append, ◌∷◌, ◌≡◌, [], ◌++◌, ◌-◌, some, refl}
use edet.Kernel.{Edges, Reservations}
use edet.Kernel.Network.{Network, arc, bare, ReservedCursor}
use edet.Map.Keys.{Ordered, pair_ordered, nat_ordered}
use edet.Kernel.Network.Arcs.{Tabled, Tabled-extend, AllBelow, AllBelow-push}
use edet.Map.{Map, IsSorted, amount_at, get}
use edet.Map.Laws.{get-cons_later, cmp_self, lt-of-Above}

-- The entries of an ordered map that a loop has still to add, all past the table's keys, and what
-- it reads for each.
pub record Pending {K : Type 0} ⦃o : Ordered K⦄ (rest arcs : Map K ℕ) (read : K → ℕ) : Type 0 where
  pub sorted : IsSorted rest
  pub ahead : (k : K) (v : ℕ) → get k rest ≡ some v → AllBelow k arcs
  pub reads : (k : K) (v : ℕ) → get k rest ≡ some v → v ≡ read k

module _ {K : Type 0} ⦃o : Ordered K⦄ where
  pub Pending-skip :
      (j : K) (w : ℕ) (rest arcs : Map K ℕ) (read : K → ℕ)
      → Pending ((j, w) ∷ rest) arcs read
      → Pending rest arcs read
  Pending-skip j w rest arcs read p = record {
    sorted = p.sorted.1;
    ahead = λ k v e. p.ahead k v (get-cons_later j k w v rest p.sorted.0 e);
    reads = λ k v e. p.reads k v (get-cons_later j k w v rest p.sorted.0 e);
  }

  pub Pending-push :
      (j : K) (w a : ℕ) (rest arcs : Map K ℕ) (read : K → ℕ)
      → Pending ((j, w) ∷ rest) arcs read
      → Pending rest (arcs ++ (j, a) ∷ []) read
  Pending-push j w a rest arcs read p = record {
    sorted = p.sorted.1;
    ahead = λ k v e.
        AllBelow-push j k a arcs (lt-of-Above j k v rest p.sorted.0 e)
          (p.ahead j w (ground (arith, cmp_self j)));
    reads = λ k v e. p.reads k v (get-cons_later j k w v rest p.sorted.0 e);
  }

  pub Pending-head :
      (j : K) (w : ℕ) (rest arcs : Map K ℕ) (read : K → ℕ)
      → Pending ((j, w) ∷ rest) arcs read
      → AllBelow j arcs × (w ≡ read j)
  Pending-head j w rest arcs read p =
      let e : get j ((j, w) ∷ rest) ≡ some w = ground (arith, cmp_self j) in
      (p.ahead j w e, p.reads j w e)

-- At the start of a loop, with nothing in the table, all is pending.
pub Pending-all :
    {K : Type 0} ⦃o : Ordered K⦄ (all arcs : Map K ℕ)
    → ((k : K) → AllBelow k arcs)
    → IsSorted all
    → Pending all arcs (λ k. amount_at k all)
Pending-all all arcs none_in h = record {
  sorted = h;
  ahead = λ k v e. none_in k;
  reads = λ k v e. ground (arith, e);
}

-- What is left of each amount of `m` beside those of `r`.
abbrev pub left : {K : Type 0} ⦃o : Ordered K⦄ → Map K ℕ → Map K ℕ → K → ℕ
left m r k = amount_at k m - amount_at k r

-- The cursor still answers for every edge to come.
abbrev pub InStep : Edges → ReservedCursor → Reservations → Type 0
InStep edges held reserved =
    (k : ℕ × ℕ) (v : ℕ) → get k edges ≡ some v → amount_at k held ≡ amount_at k reserved

abbrev pub IsEven : Network → Type 0
IsEven net = length net.to ≡ length net.cap

-- What the tables say of the network, given what was free on each arc when it was built.
pub record Tables (net : Network) (on_edge : ℕ × ℕ → ℕ) (on_supply : ℕ → ℕ) : Type 0 where
  pub even : IsEven net
  pub ledger : Tabled net.ledger_arc net.cap on_edge
  pub supply : Tabled net.supply_arc net.cap on_supply

arc-IsEven : (net : Network) (u v c : ℕ) → IsEven net → IsEven (arc net u v c)
unfolding arc
arc-IsEven net u v c h =
    omega (arith, h, length-append net.to (v ∷ u ∷ []), length-append net.cap (c ∷ 0 ∷ []))

pub arc-Tables :
    (net : Network) (u v c : ℕ) (f : ℕ × ℕ → ℕ) (g : ℕ → ℕ)
    → Tables net f g
    → Tables (arc net u v c) f g
unfolding arc
arc-Tables net u v c f g t = record {
  even = arc-IsEven net u v c t.even;
  ledger = Tabled-extend net.ledger_arc net.cap (c ∷ 0 ∷ []) f t.ledger;
  supply = Tabled-extend net.supply_arc net.cap (c ∷ 0 ∷ []) g t.supply;
}

pub bare-Tables : (m : ℕ) (f : ℕ × ℕ → ℕ) (g : ℕ → ℕ) → Tables (bare m) f g
bare-Tables m f g = record {
  even = refl;
  ledger = record { sorted = tt; caps = λ j a e. cc };
  supply = record { sorted = tt; caps = λ j a e. cc };
}
