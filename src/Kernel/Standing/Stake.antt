-- ===== src/Kernel/Standing/Stake.antt =====
-- What `stake` of crates/kernel/src/flow.rs does to each edge, once and over a sequence of trades.
use edet.Base.{
  ℕ, min, max, ◌≡◌, refl, sym, ap, ◌∙◌, not, ◌&&◌, Option, none, some, List, [], ◌∷◌, arith, ◌==◌,
  if◌then◌else◌, or_else,
}
use edet.Map.{amount_at, get}
use edet.Map.Keys.{pair_ordered}
use edet.Map.Laws.{get-insert}
use edet.Kernel.{Edges}
use edet.Kernel.Standing.{stake}

-- A trade as it settles: who sold, who bought, how much, and what the seller could confer then.
pub record Trade : Type 0 where
  pub creditor : ℕ
  pub debtor : ℕ
  pub amount : ℕ
  pub conferrable : ℕ

-- The trades settled one after the other.
unfoldable pub settle_each : List Trade → Edges → Edges
settle_each [] edges = edges
settle_each (t ∷ ts) edges = settle_each ts (stake edges t.creditor t.debtor t.amount t.conferrable)

-- What one trade is worth to an edge: nothing to any edge but its own, nor to a loop.
abbrev pub worth : ℕ × ℕ → Trade → ℕ
worth k t =
    if not (t.creditor == t.debtor) && (k.0 == t.creditor && k.1 == t.debtor)
    then min t.amount t.conferrable
    else 0

-- The best of the trades for an edge, whatever their order.
unfoldable pub peak : ℕ × ℕ → List Trade → ℕ
peak k [] = 0
peak k (t ∷ ts) = max (worth k t) (peak k ts)

-- A row raised to a peak; a peak of zero makes no row.
abbrev pub raised : Option ℕ → ℕ → Option ℕ
raised row best = if best == 0 then row else some (max (or_else row 0) best)

get-stake :
    (edges : Edges) (t : Trade) (k : ℕ × ℕ)
    → get k (stake edges t.creditor t.debtor t.amount t.conferrable)
      ≡ raised (get k edges) (worth k t)
unfolding stake
get-stake edges t k =
    let key : ℕ × ℕ = (t.creditor, t.debtor) in
    ground (arith, get-insert k key (max (amount_at key edges) (min t.amount t.conferrable)) edges)

raised-raised : (row : Option ℕ) (a b : ℕ) → raised (raised row a) b ≡ raised row (max a b)
raised-raised none a b = ground arith
raised-raised (some x) a b = ground arith

get-settle_each_lem :
    (ts : List Trade) (edges : Edges) (k : ℕ × ℕ)
    → get k (settle_each ts edges) ≡ raised (get k edges) (peak k ts)
unfolding settle_each peak
get-settle_each_lem [] edges k = refl
get-settle_each_lem (t ∷ ts) edges k =
    let next = stake edges t.creditor t.debtor t.amount t.conferrable in
    get-settle_each_lem ts next k
    ∙ ap (λ row. raised row (peak k ts)) (get-stake edges t k)
    ∙ raised-raised (get k edges) (worth k t) (peak k ts)

-- Any sequence of trades leaves each edge at the more of what it held and the best of its trades,
-- where each counts for no more than its creditor could confer and a trade with oneself for
-- nothing; an edge whose best is zero keeps its row, or its absence. The whole sequence settled
-- once more changes no edge.
pub get-settle_each :
    (ts : List Trade) (edges : Edges) (k : ℕ × ℕ)
    → (get k (settle_each ts edges)
        ≡ (if peak k ts == 0 then get k edges else some (max (amount_at k edges) (peak k ts))))
      × (get k (settle_each ts (settle_each ts edges)) ≡ get k (settle_each ts edges))
get-settle_each ts edges k = (
  get-settle_each_lem ts edges k,
  get-settle_each_lem ts (settle_each ts edges) k
      ∙ ap (λ row. raised row (peak k ts)) (get-settle_each_lem ts edges k)
      ∙ raised-raised (get k edges) (peak k ts) (peak k ts)
      ∙ ap (raised (get k edges)) (omega arith)
      ∙ sym (get-settle_each_lem ts edges k),
)
