-- ===== src/Kernel/Search.antt =====
-- `Network::levels` and `Network::flow` of crates/kernel/src/flow.rs: Dinic's search. A node that
-- the search has not reached has no level: `none` stands for the mark `u32::MAX`.
pub mod Limit
pub mod Sound
pub mod Paths
pub mod Augment
pub mod Walking
use edet.Base.{
  ℕ, zero, suc, ◌+◌, ◌-◌, ◌*◌, min, Bool, true, false, ◌&&◌, Option, none, some, List, [], ◌∷◌,
  ◌++◌, ltb, leb, ◌==◌, if◌then◌else◌, length, get_or, set, replicate, drop,
}
use edet.Kernel.Network.{Network, mate, out}

abbrev pub nodes : Network → ℕ
nodes net = length net.head_start - 1

abbrev pub cap_at : List ℕ → ℕ → ℕ
cap_at cap a = get_or cap a 0

abbrev pub head : Network → ℕ → ℕ
head net a = get_or net.to a 0

-- The arcs out of one node: each new head gets the level `l` and joins the queue.
unfoldable pub visit : Network → ℕ → List ℕ → List (Option ℕ) → List ℕ → List (Option ℕ) × List ℕ
visit net l [] level queue = (level, queue)
visit net l (a ∷ arcs) level queue =
    let v = head net a in
    let fresh : Bool = elim (get_or level v (some 0)) [ none ↦ true | some _ ↦ false ] in
    let new = ltb 0 (cap_at net.cap a) && fresh in
    visit net l arcs (if new then set level v (some l) else level)
      (if new then queue ++ v ∷ [] else queue)

-- `level[u] + 1`
abbrev pub next_level : List (Option ℕ) → ℕ → ℕ
next_level level u = elim (get_or level u none) [ none ↦ 0 | some l ↦ l + 1 ]

-- The queue of `levels`. The fuel counts the nodes that may leave it.
unfoldable pub bfs : ℕ → Network → List (Option ℕ) → List ℕ → List (Option ℕ) × List ℕ
unfolding visit
bfs zero net level queue = (level, queue)
bfs (suc fuel) net level [] = (level, [])
bfs (suc fuel) net level (u ∷ queue) =
    let (level', queue') = visit net (next_level level u) (out net u) level queue in
    bfs fuel net level' queue'

unfoldable pub levelled : Network → List (Option ℕ) × List ℕ
unfolding bfs
levelled net =
    bfs (nodes net) net (set (replicate (nodes net) none) net.src (some 0)) (net.src ∷ [])

-- `Network::levels`
unfoldable pub levels : Network → Option (List (Option ℕ))
unfolding levelled
levels net =
    let level = (levelled net).0 in
    elim (get_or level net.snk none) [ none ↦ none | some _ ↦ some level ]

-- The variables of the inner loop. The path's last arc comes first; `halted` marks a `break`.
pub record Walk : Type 0 where
  pub total : ℕ
  pub cap : List ℕ
  pub next_arc : List ℕ
  pub path : List ℕ
  pub u : ℕ
  pub halted : Bool

-- `path.iter().map(|&a| self.cap[a]).min()`
abbrev pub least_cap : List ℕ → List ℕ → Option ℕ
least_cap cap [] = none
least_cap cap (a ∷ path) = elim (least_cap cap path) [
  | none ↦ some (cap_at cap a)
  | some c ↦ some (min c (cap_at cap a))
]

-- `let push = ….min().unwrap_or(0).min(want)`
unfoldable pub bottleneck : List ℕ → List ℕ → ℕ → ℕ
bottleneck cap path want = elim (least_cap cap path) [ none ↦ min 0 want | some c ↦ min c want ]

-- `self.cap[a] -= push; self.cap[a ^ 1] += push`
abbrev pub push_arc : ℕ → ℕ → List ℕ → List ℕ
push_arc push a cap =
    let less = set cap a (cap_at cap a - push) in set less (mate a) (cap_at less (mate a) + push)

-- The `for` loop of the augmentation, from the source's side on: the capacities, whether an arc
-- was saturated, and the path cut short of the first such arc.
unfoldable pub augment : ℕ → List ℕ → List ℕ → List ℕ × Bool × List ℕ
augment push [] cap = (cap, false, [])
augment push (a ∷ path) cap =
    let (cap1, hit, kept) = augment push path cap in
    let cap2 = push_arc push a cap1 in
    (
      cap2,
      if hit then true else cap_at cap2 a == 0,
      if hit then kept else if cap_at cap2 a == 0 then path else a ∷ path,
    )

-- Where a path that starts at the source ends.
abbrev pub path_end : Network → List ℕ → ℕ
path_end net [] = net.src
path_end net (a ∷ _) = head net a

-- `self.cap[a] > 0 && level[v] == level[u] + 1`
unfoldable pub usable : Network → List (Option ℕ) → List ℕ → ℕ → ℕ → Bool
usable net level cap u a =
    let lower : Bool = elim (get_or level u none) [
      | none ↦ false
      | some l ↦ elim (get_or level (head net a) none) [ none ↦ false | some k ↦ k == l + 1 ]
    ] in
    ltb 0 (cap_at cap a) && lower

-- The scan for the next usable arc: the place where it stops, and the arc there.
unfoldable pub scan : Network → List (Option ℕ) → List ℕ → ℕ → List ℕ → ℕ → ℕ × Option ℕ
unfolding usable
scan net level cap u [] i = (i, none)
scan net level cap u (a ∷ arcs) i =
    let rest = scan net level cap u arcs (i + 1) in
    if usable net level cap u a then (i, some a) else rest

-- The branch at the sink.
unfoldable pub augment_step : Network → ℕ → Walk → Walk
unfolding bottleneck augment
augment_step net limit s =
    let push = bottleneck s.cap s.path (limit - s.total) in
    let (cap, _, kept) = augment push s.path s.cap in
    record s { total = s.total + push; cap = cap; path = kept; u = path_end net kept }

-- The branch at a dead end.
unfoldable pub retreat_step : Network → Walk → Walk
retreat_step net s = elim s.path [
  | [] ↦ record s { halted = true }
  | a ∷ path ↦
      let u = head net (mate a) in
      record s { path = path; u = u; next_arc = set s.next_arc u (get_or s.next_arc u 0 + 1) }
]

-- The place in the arcs of `u` is kept, and the path goes on by the arc found or goes back.
unfoldable pub move_on : Network → Walk → ℕ × Option ℕ → Walk
unfolding retreat_step
move_on net s (i, none) = retreat_step net (record s { next_arc = set s.next_arc s.u i })
move_on net s (i, some a) = record s {
  next_arc = set s.next_arc s.u i;
  path = a ∷ s.path;
  u = head net a;
}

-- The branch that looks for the next arc out of `u`.
unfoldable pub advance_step : Network → List (Option ℕ) → Walk → Walk
unfolding scan move_on
advance_step net level s =
    let from = get_or s.next_arc s.u 0 in
    move_on net s (scan net level s.cap s.u (drop from (out net s.u)) from)

-- One turn of the inner `loop`.
unfoldable pub step : Network → List (Option ℕ) → ℕ → Walk → Walk
unfolding augment_step advance_step
step net level limit s =
    if leb limit s.total
    then record s { halted = true }
    else if s.u == net.snk
    then augment_step net limit s
    else advance_step net level s

unfoldable pub walk : ℕ → Network → List (Option ℕ) → ℕ → Walk → Walk
unfolding step
walk zero net level limit s = s
walk (suc fuel) net level limit s = elim s.halted [
  | true ↦ s
  | false ↦ walk fuel net level limit (step net level limit s)
]

-- One phase over a level graph. A turn takes an arc onto the path, or moves the place in some
-- node's arcs: the fuel is a bound on these.
abbrev pub phase_fuel : Network → ℕ
phase_fuel net = (2 * length net.to + 2) * (nodes net + 2)

abbrev pub start_walk : Network → ℕ → Walk
start_walk net total = record {
  total = total;
  cap = net.cap;
  next_arc = replicate (nodes net) 0;
  path = [];
  u = net.src;
  halted = false;
}

unfoldable pub phase : Network → List (Option ℕ) → ℕ → ℕ → Walk
unfolding walk
phase net level limit total = walk (phase_fuel net) net level limit (start_walk net total)

-- The outer loop. Every phase but a last one moves a unit, so `limit` rounds are enough.
unfoldable pub rounds : ℕ → Network → ℕ → ℕ → ℕ × Network
unfolding phase levels
rounds zero net limit total = (total, net)
rounds (suc fuel) net limit total = elim (ltb total limit) [
  | false ↦ (total, net)
  | true ↦ elim (levels net) [
    | none ↦ (total, net)
    | some level ↦
        let s = phase net level limit total in
        rounds fuel (record net { cap = s.cap }) limit s.total
  ]
]

-- `Network::flow`: the flow found, and the network it leaves.
unfoldable pub flow : Network → ℕ → ℕ × Network
unfolding rounds
flow net limit = rounds limit net limit 0
