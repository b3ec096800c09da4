-- ===== src/State/Tests.antt =====
-- The theorems on the state machine at inputs that meet their hypotheses.
use edet.Base.{ℕ, ◌≡◌, refl, ◌≢◌, true, false, some, List, [], ◌∷◌, arith}
use edet.Map.{Map, get, IsSorted}
use edet.Map.Keys.{nat_ordered, pair_ordered}
use edet.Kernel.Held.{Held, amount}
use edet.Kernel.Routes.{decompose, from_paths}
use edet.State.Loss.{shrink}
use edet.State.Loss.Divided.{Divides}
use edet.State.Loss.Shrunk.{shrink-Divides}
use edet.Kernel.Held.{Held}
use edet.State.Journal.{Dirty, Op, put_of, delete_of, of_map, run, take_dirty, reports}
use edet.State.Journal.Changes.{Tracks, take_dirty-Tracks}
use edet.State.Journal.Runs.{run-take_dirty}
use edet.State.Ledger.{
  Ledger, active, reserve_capacity, release_capacity, record_stake, fits_capacity, can_seat,
  is_active,
}
use edet.State.Ledger.Touched.{
  reserve_capacity-Tracks, release_capacity-Tracks, record_stake-Tracks,
}
use edet.State.Ledger.Restored.{IsTidy, credit_of, release_capacity-reserve_capacity}
use edet.State.Replay.{
  Window, apply_tx, begin_block, runs, fails, not_signer, barred, judged, replay,
}
use edet.State.Replay.Reads.{IsOrderly}
use edet.State.Replay.Spent.{Submission, stream}
use edet.State.Replay.Once.{apply_tx-stream}
use edet.State.Replay.Clock.{epoch-stream}
use edet.State.Ledger.Gate.{granted, fits_capacity-reserve_capacity, can_seat-seat_each, seat_each}
use edet.Kernel.Network.{build, index, out}
use edet.Kernel.Search.{flow}
use edet.Kernel.Cursor.{at}

abbrev rows : Map ℕ ℕ
rows = (1, 10) ∷ (2, 20) ∷ (5, 50) ∷ []

rows-IsSorted : IsSorted rows
rows-IsSorted = ground arith

-- One row is overwritten and one is taken out.
abbrev writes : List (Op ℕ ℕ)
writes = put_of 2 7 ∷ delete_of 5 ∷ []

journal_reports :
    (run writes (take_dirty (of_map rows)).1).dirty ≡ Dirty.keys ((2, tt) ∷ (5, tt) ∷ [])
unfolding run take_dirty of_map
journal_reports = refl

run-take_dirty_example : get 1 (run writes (take_dirty (of_map rows)).1).rows ≡ some 10
unfolding run take_dirty of_map reports
run-take_dirty_example = run-take_dirty writes (of_map rows) 1 (tt, (tt, tt)) rows-IsSorted refl

-- Account 0 underwrites 100, backs 1 for 50 and 2 for 10; 1 and 2 back 3. An obligation of 5 stands
-- along 0, 1, 3.
abbrev ledger : Ledger
ledger = record {
  members = (0, active) ∷ (1, active) ∷ (2, active) ∷ (3, active) ∷ [];
  next_member = 4;
  edges = record {
    rows = ((0, 1), 50) ∷ ((0, 2), 10) ∷ ((1, 3), 30) ∷ ((2, 3), 40) ∷ [];
    dirty = Dirty.clean;
  };
  reserved = record { rows = ((0, 1), 5) ∷ ((1, 3), 5) ∷ []; dirty = Dirty.clean };
  committed = (0, 5) ∷ [];
  seat_reserved = record { rows = []; dirty = Dirty.clean };
  seat_committed = [];
  underwriters = (0, 100) ∷ [];
  seat_price = 20;
}

abbrev granted_20 : Held
granted_20 = record { edges = ((0, 1), 20) ∷ ((1, 3), 20) ∷ []; supply = (0, 20) ∷ [] }

edges-Tracks : Tracks ledger.edges.rows ledger.edges
unfolding take_dirty
edges-Tracks = take_dirty-Tracks ledger.edges (ground arith)

reserved-Tracks : Tracks ledger.reserved.rows ledger.reserved
unfolding take_dirty
reserved-Tracks = take_dirty-Tracks ledger.reserved (ground arith)

reserve_capacity-Tracks_example :
    Tracks ledger.reserved.rows (reserve_capacity ledger 3 20).1.reserved
reserve_capacity-Tracks_example =
    reserve_capacity-Tracks ledger.reserved.rows ledger 3 20 reserved-Tracks

release_capacity-Tracks_example :
    Tracks ledger.reserved.rows (release_capacity ledger granted_20).reserved
release_capacity-Tracks_example =
    release_capacity-Tracks ledger.reserved.rows ledger granted_20 (omega arith) reserved-Tracks

record_stake-Tracks_example : Tracks ledger.edges.rows (record_stake ledger 1 3 70 50).edges
record_stake-Tracks_example = record_stake-Tracks ledger.edges.rows ledger 1 3 70 50 edges-Tracks

ledger-IsTidy : IsTidy ledger
ledger-IsTidy = record {
  sorted = ground arith;
  positive = omega arith;
  committed_sorted = ground arith;
  committed_positive = omega arith;
}

release_capacity-reserve_capacity_example :
    credit_of (release_capacity (reserve_capacity ledger 3 20).1 granted_20) ≡ credit_of ledger
unfolding reserve_capacity build flow index at out
release_capacity-reserve_capacity_example =
    release_capacity-reserve_capacity ledger 3 20 granted_20 ledger-IsTidy refl

fits_capacity-reserve_capacity_example :
    fits_capacity ledger 3 36 ≡ granted (reserve_capacity ledger 3 36).0
unfolding is_active
fits_capacity-reserve_capacity_example =
    fits_capacity-reserve_capacity ledger 3 36 (omega arith) refl

can_seat-seat_each_example : can_seat ledger 3 2 ≡ seat_each 2 ledger 3
can_seat-seat_each_example = can_seat-seat_each ledger 3 2 (omega arith)

-- The ledger seats two through account 3, and not three: the third finds ten short.
can_seat_two : can_seat ledger 3 2 ≡ true
unfolding can_seat build flow index at out
can_seat_two = refl

can_seat_three : can_seat ledger 3 3 ≡ false
unfolding can_seat build flow index at out
can_seat_three = refl

-- The window at epoch 10: id 7 was applied, with an envelope good until epoch 12.
abbrev window : Window ℕ
window = record {
  epoch = 10;
  last_begin_secs = 864_000;
  applied = record { rows = (12, (7, tt) ∷ []) ∷ []; dirty = Dirty.clean };
}

window-IsOrderly : IsOrderly window.applied.rows
window-IsOrderly = record { sorted = ground arith; buckets = λ e ids eq. ground (arith, eq) }

replay_barred : (apply_tx 7 12 864_000 runs window).0 ≡ barred replay
unfolding apply_tx
replay_barred = refl

-- Id 8 fails and keeps its id; a day later, after an envelope of id 9, it is sent again.
apply_tx-stream_example :
    (apply_tx 8 13 950_400 runs (
      stream
        (record { id = 9; last = 20; now = 950_400; verdict = not_signer } ∷ [])
        (apply_tx 8 13 864_000 (fails true) window).1)).0
    ≢ judged runs
unfolding apply_tx
apply_tx-stream_example =
    apply_tx-stream 8 13 864_000 (fails true) window
      (record { id = 9; last = 20; now = 950_400; verdict = not_signer } ∷ []) 950_400 runs runs
      window-IsOrderly refl refl

-- A block far ahead of the window: id 8 runs, and id 9 fails and goes free.
abbrev far_block : List (Submission ℕ)
far_block =
    record { id = 8; last = 10_020; now = 8_640_000_000; verdict = runs }
    ∷ record { id = 9; last = 10_030; now = 8_640_000_000; verdict = fails false }
    ∷ []

epoch-stream_example :
    let w = stream far_block (begin_block 8_640_000_000 window) in
    (w.epoch ≡ 10_010) × (begin_block 8_640_000_000 w ≡ w)
epoch-stream_example = epoch-stream 8_640_000_000 window far_block (refl, (refl, tt))

-- The hold of the repository's test: two routes from underwriter 0 to debtor 3.
abbrev two_routes : Held
two_routes = record {
  edges = ((0, 1), 1000) ∷ ((0, 2), 1001) ∷ ((1, 3), 1000) ∷ ((2, 3), 1001) ∷ [];
  supply = (0, 2001) ∷ [];
}

amount-two_routes : amount two_routes ≡ 2001
unfolding amount
amount-two_routes = refl

shrunk :
    (shrink two_routes 3 700 2001).0.edges
    ≡ ((0, 1), 350) ∷ ((0, 2), 350) ∷ ((1, 3), 350) ∷ ((2, 3), 350) ∷ []
unfolding shrink decompose from_paths
shrunk = refl

-- A hold whose arcs arrive nowhere is divided arc by arc.
shrunk_broken :
    (shrink (record { edges = ((0, 1), 5) ∷ []; supply = (0, 3) ∷ [] }) 3 1 3).0.edges
    ≡ ((0, 1), 2) ∷ []
unfolding shrink decompose
shrunk_broken = refl

shrink-Divides_example : Divides two_routes 700 (shrink two_routes 3 700 (amount two_routes))
shrink-Divides_example =
    shrink-Divides two_routes 3 700 (ground arith) (ground arith) (ground arith)
      (omega (arith, amount-two_routes)) (omega (arith, amount-two_routes))
      (omega (arith, amount-two_routes))
