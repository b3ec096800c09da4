-- ===== src/Kernel/Tests.antt =====
-- Tests of the kernel on a small community, and the theorems at inputs that meet their hypotheses.
use edet.Base.{
  ℕ, ◌+◌, ◌<◌, Ordering, ◌≡◌, refl, ◌↔◌, false, none, some, List, [], ◌∷◌, arith, length,
}
use edet.Kernel.Cursor.{at}
use edet.Kernel.{Committed, Edges, Reservations, Underwriters, u64_max}
use edet.Kernel.Capacity.{capacity, reserve, reserve_inner, release, capacity_inner}
use edet.Kernel.Held.{Held}
use edet.Kernel.Routes.Fuel.{decompose-routes}
use edet.Kernel.Routes.{decompose, from_paths, routes, collect, err, ok, stranded}
use edet.Kernel.Network.{build, index, arcs_of, out}
use edet.Kernel.Search.{flow}
use edet.Kernel.Capacity.Release.{release-reserve_inner}
use edet.Kernel.Capacity.Bounds.{Within, reserve_inner-Within}
use edet.Kernel.Routes.Round.{from_paths-decompose}
use edet.Kernel.Standing.{stake, decay}
use edet.Map.{IsSorted, get}
use edet.Kernel.Capacity.Agreement.{reserve_inner-refused}
use edet.Kernel.Network.Index.{out-index}
use edet.Kernel.Standing.Stake.{Trade, settle_each, peak, get-settle_each}
use edet.Map.Keys.{nat_ordered, pair_ordered}
use edet.Kernel.Standing.Decay.{get-decay}
use edet.Kernel.Cursor.Lookup.{at-lookup}

-- Account 0 underwrites 100, backs 1 for 50 and 2 for 10; 1 and 2 back 3.
abbrev stakes : Edges
stakes = ((0, 1), 50) ∷ ((0, 2), 10) ∷ ((1, 3), 30) ∷ ((2, 3), 40) ∷ []

abbrev seed : Underwriters
seed = (0, 100) ∷ []

-- An older obligation of 5 along 0, 1, 3.
abbrev reserved : Reservations
reserved = ((0, 1), 5) ∷ ((1, 3), 5) ∷ []

abbrev committed : Committed
committed = (0, 5) ∷ []

capacity_runs : capacity stakes reserved committed seed (3 ∷ []) 4 u64_max ≡ 35
unfolding capacity build flow index at out
capacity_runs = refl

capacity_of_the_underwriter : capacity stakes reserved committed seed (0 ∷ []) 4 u64_max ≡ 0
unfolding capacity build flow index at out
capacity_of_the_underwriter = refl

abbrev granted : Held
granted = record { edges = ((0, 1), 20) ∷ ((1, 3), 20) ∷ []; supply = (0, 20) ∷ [] }

reserve_runs : reserve stakes reserved committed seed 3 4 20 ≡ record {
  held = some granted;
  reserved = ((0, 1), 25) ∷ ((1, 3), 25) ∷ [];
  committed = (0, 25) ∷ [];
}
unfolding reserve build flow index at out
reserve_runs = refl

reserve_refuses : (reserve stakes reserved committed seed 3 4 36).held ≡ none
unfolding reserve build flow index at out
reserve_refuses = refl

decompose_runs :
    decompose granted 3 ≡ ok (record { source = 0; arcs = (0, 1) ∷ (1, 3) ∷ []; value = 20 } ∷ [])
unfolding decompose
decompose_runs = refl

decompose_strands : decompose granted 2 ≡ err (stranded 0 3 20)
unfolding decompose
decompose_strands = refl

stakes-IsSorted : IsSorted stakes
stakes-IsSorted = ground arith

reserved-IsSorted : IsSorted reserved
reserved-IsSorted = ground arith

committed-IsSorted : IsSorted committed
committed-IsSorted = ground arith

seed-IsSorted : IsSorted seed
seed-IsSorted = ground arith

release-reserve_inner_example :
    release (((0, 1), 25) ∷ ((1, 3), 25) ∷ []) ((0, 25) ∷ []) granted ≡ (reserved, committed)
unfolding reserve_inner build flow index at out
release-reserve_inner_example =
    release-reserve_inner stakes reserved committed seed 3 4 20 false granted reserved-IsSorted
      (omega arith) committed-IsSorted (omega arith) refl

at-lookup_example :
    ((at (1, 3) reserved).0 ≡ 5)
    × IsSorted (at (1, 3) reserved).1
    × ((j : ℕ × ℕ)
        → pair_ordered.cmp (1, 3) j ≡ Ordering.lt
        → get j (at (1, 3) reserved).1 ≡ get j reserved)
at-lookup_example = at-lookup (1, 3) reserved reserved-IsSorted

-- Two trades of 1 with 2, the second of less, a trade of 2 with itself and one that 3 cannot back.
abbrev trades : List Trade
trades =
    record { creditor = 1; debtor = 2; amount = 70; conferrable = 50 }
    ∷ record { creditor = 2; debtor = 2; amount = 40; conferrable = 90 }
    ∷ record { creditor = 1; debtor = 2; amount = 20; conferrable = 60 }
    ∷ record { creditor = 3; debtor = 2; amount = 15; conferrable = 0 }
    ∷ []

get-settle_each_example :
    (get (1, 2) (settle_each trades stakes) ≡ some 50)
    × (get (1, 2) (settle_each trades (settle_each trades stakes))
        ≡ get (1, 2) (settle_each trades stakes))
unfolding peak
get-settle_each_example = get-settle_each trades stakes (1, 2)

settled_edges :
    settle_each trades stakes
    ≡ ((0, 1), 50) ∷ ((0, 2), 10) ∷ ((1, 2), 50) ∷ ((1, 3), 30) ∷ ((2, 3), 40) ∷ []
unfolding settle_each stake
settled_edges = refl

get-decay_example : get (1, 3) (decay stakes reserved 1 10) ≡ some 5
get-decay_example =
    get-decay stakes reserved 1 10 (1, 3) stakes-IsSorted reserved-IsSorted (omega arith)
      (omega arith)

reserved-Within : Within stakes seed reserved committed
reserved-Within = record { stakes = λ k. ground arith; supplies = λ u. ground arith }

reserve_inner-Within_example :
    let r = reserve_inner stakes reserved committed seed 3 4 20 false in
    Within stakes seed r.reserved r.committed
reserve_inner-Within_example =
    reserve_inner-Within stakes reserved committed seed 3 4 20 false stakes-IsSorted
      reserved-IsSorted seed-IsSorted reserved-Within

reserve_inner-refused_example :
    let r = reserve_inner stakes reserved committed seed 3 4 36 false in
    ((r.held ≡ none) ↔ (capacity_inner stakes reserved committed seed (3 ∷ []) 4 36 false < 36))
    × (r.held ≡ none → (r.reserved ≡ reserved) × (r.committed ≡ committed))
reserve_inner-refused_example =
    reserve_inner-refused stakes reserved committed seed 3 4 36 false (omega arith)

out-index_example :
    out (index (arcs_of stakes reserved committed seed (3 ∷ []) 4 false) 6) 1 ≡ 1 ∷ 4 ∷ []
unfolding arcs_of at
out-index_example =
    out-index (arcs_of stakes reserved committed seed (3 ∷ []) 4 false) 6 1 (omega arith)
      (omega arith)

decompose-routes_example :
    routes
      (length granted.edges + length granted.supply + 1)
      (length granted.edges + 2 + 1_000)
      2
      (collect granted.edges [])
      (collect granted.supply [])
      []
    ≡ decompose granted 2
decompose-routes_example = decompose-routes granted 2 1_000

from_paths-decompose_example :
    from_paths (record { source = 0; arcs = (0, 1) ∷ (1, 3) ∷ []; value = 20 } ∷ []) ≡ granted
from_paths-decompose_example =
    from_paths-decompose granted 3
      (record { source = 0; arcs = (0, 1) ∷ (1, 3) ∷ []; value = 20 } ∷ []) (ground arith)
      (ground arith) (ground arith) (ground arith) decompose_runs
