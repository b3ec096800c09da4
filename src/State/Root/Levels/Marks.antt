-- ===== src/State/Root/Levels/Marks.antt =====
-- The marks of `refold`: which nodes of the level above it writes.
use edet.Base.{
  ℕ, zero, suc, ◌+◌, ◌-◌, ◌≤◌, ◌<◌, ◌≡◌, refl, ◌∙◌, ◌≢◌, Bool, true, false, none, some, List, [],
  ◌∷◌, ◌++◌, arith, ℕ_discrete, ◌==◌, if◌then◌else◌, length, get_or, set, replicate, ◌/◌, either,
  length-take, length-append, length-replicate, get_or-take, length-set, get_or-set_self,
  get_or-set_ne, lt→ltb,
}
use edet.Map.{Map, get, insert}
use edet.Map.Laws.{get-insert}
use edet.Map.Keys.{nat_ordered}
use edet.Bytes.{Bytes}
use edet.Base.Indexing.{get_or-append_if}
use edet.State.Root.Levels.{halves, extend_range, mark_above, write_nodes, node_at, resize}

abbrev pub marked : ℕ → Map ℕ Unit → Bool
marked i marks = elim (get i marks) [ none ↦ false | some _ ↦ true ]

-- What the marks say: a level may have grown, and off the marks it is the old one.
pub record IsMarked (dirty : Map ℕ Unit) (old src : List Bytes) : Type 0 where
  pub grown : length old ≤ length src
  pub same :
      (i : ℕ)
      → i < length src
      → marked i dirty ≡ false
      → (i < length old) × (get_or src i [] ≡ get_or old i [])

pub marked-halves :
    (i : ℕ) (dirty : Map ℕ Unit) → marked i dirty ≡ true → marked (i / 2) (halves dirty) ≡ true
unfolding halves
marked-halves i [] h = cc
marked-halves i ((j, _) ∷ dirty) h =
    ground (arith, h, marked-halves i dirty, get-insert (i / 2) (j / 2) tt (halves dirty))

pub marked-extend_range_old :
    (i from n : ℕ) (marks : Map ℕ Unit)
    → marked i marks ≡ true
    → marked i (extend_range from n marks) ≡ true
unfolding extend_range
marked-extend_range_old i from zero marks h = h
marked-extend_range_old i from (suc n) marks h =
    marked-extend_range_old i (from + 1) n (insert from tt marks)
      (ground (arith, h, get-insert i from tt marks))

pub marked-extend_range :
    (i from n : ℕ) (marks : Map ℕ Unit)
    → from ≤ i
    → i < from + n
    → marked i (extend_range from n marks) ≡ true
unfolding extend_range
marked-extend_range i from zero marks le lt = absurd (omega arith)
marked-extend_range i from (suc n) marks le lt = elim (ℕ_discrete i from) [
  | yes same ↦
      marked-extend_range_old i (from + 1) n (insert from tt marks)
        (ground (arith, get-insert i from tt marks, same))
  | no later ↦
      marked-extend_range i (from + 1) n (insert from tt marks) (omega (arith, later)) (omega arith)
]

-- A node over a changed node is marked.
pub marked-mark_above :
    (i : ℕ) (src : List Bytes) (dirty : Map ℕ Unit) (dst : List Bytes)
    → marked i dirty ≡ true
    → marked (i / 2) (mark_above src dirty dst) ≡ true
unfolding mark_above
marked-mark_above i src dirty dst h =
    let from = length dst - 1 in
    either (λ (m : Map ℕ Unit). marked (i / 2) m ≡ true) (length dst == (length src + 1) / 2)
      (halves dirty) (extend_range from ((length src + 1) / 2 - from) (halves dirty))
      (marked-halves i dirty h)
      (marked-extend_range_old (i / 2) from ((length src + 1) / 2 - from) (halves dirty)
        (marked-halves i dirty h))

-- Where the level's length changes, every node from the old level's last on is marked.
pub mark_above_grown :
    (j : ℕ) (src : List Bytes) (dirty : Map ℕ Unit) (dst : List Bytes)
    → length dst ≢ (length src + 1) / 2
    → length dst ≤ j + 1
    → j < (length src + 1) / 2
    → marked j (mark_above src dirty dst) ≡ true
unfolding mark_above
mark_above_grown j src dirty dst ne le lt =
    let from = length dst - 1 in
    let other : (length dst == (length src + 1) / 2) ≡ false = ground (arith, ne) in
    rw other (
      marked-extend_range j from ((length src + 1) / 2 - from) (halves dirty) (omega arith)
        (omega arith))

pub length-resize : (level : List Bytes) (want : ℕ) → length (resize level want) ≡ want
unfolding resize
length-resize level want =
    let zeros : Bytes = replicate 32 0 in
    let tail : List Bytes = replicate (want - length level) (replicate 32 0) in
    omega (
      arith,
      length-take want (level ++ tail),
      length-append level tail,
      length-replicate (want - length level) zeros,
    )

pub get_or-resize :
    (level : List Bytes) (want j : ℕ)
    → j < length level
    → j < want
    → get_or (resize level want) j [] ≡ get_or level j []
unfolding resize
get_or-resize level want j h lt =
    let tail : List Bytes = replicate (want - length level) (replicate 32 0) in
    get_or-take want j (level ++ tail) [] lt
    ∙ get_or-append_if level tail j []
    ∙ rw (lt→ltb j (length level) h) refl

module _ (sha256 : Bytes → Bytes) where
  pub length-write_nodes :
      (src : List Bytes) (next : Map ℕ Unit) (dst : List Bytes)
      → length (write_nodes sha256 src next dst) ≡ length dst
  unfolding write_nodes
  length-write_nodes src [] dst = refl
  length-write_nodes src ((j, _) ∷ next) dst =
      length-write_nodes src next (set dst j (node_at sha256 src j))
      ∙ length-set dst j (node_at sha256 src j)

  pub get_or-write_nodes :
      (src : List Bytes) (next : Map ℕ Unit) (dst : List Bytes) (i : ℕ)
      → i < length dst
      → get_or (write_nodes sha256 src next dst) i []
        ≡ (if marked i next then node_at sha256 src i else get_or dst i [])
  unfolding write_nodes
  get_or-write_nodes src [] dst i h = refl
  get_or-write_nodes src ((j, _) ∷ next) dst i h = ground (
    arith,
    get_or-write_nodes src next (set dst j (node_at sha256 src j)) i,
    length-set dst j (node_at sha256 src j),
    get_or-set_self dst j (node_at sha256 src j) [],
    get_or-set_ne dst j i (node_at sha256 src j) [],
    h,
  )
