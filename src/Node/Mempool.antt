-- ===== src/Node/Mempool.antt =====
-- `Mempool` of crates/node/src/mempool.rs. The content hash and the order in which a hash set is
-- walked are parameters; a hash set is a map to nothing.
pub mod Agreement
use edet.Base.{
  ℕ, ◌+◌, max, Bool, true, false, ◌||◌, Option, none, some, List, [], ◌∷◌, ◌++◌, ltb, leb,
  if◌then◌else◌, length, take, map,
}
use edet.Map.{Map, get, insert, remove}
use edet.Map.Keys.{Ordered}

-- `SEEN_CAP`
abbrev pub seen_cap : ℕ
seen_cap = 4_096

-- `MAX_QUEUE_LEN`
abbrev pub max_queue_len : ℕ
max_queue_len = 8_192

pub record Mempool (T H : Type 0) : Type 0 where
  pub queue : List (T × H)
  pub queued : Map H Unit
  pub seen : List H
  pub seen_set : Map H Unit

module _ {H : Type 0} ⦃o : Ordered H⦄ where
  abbrev pub has : H → Map H Unit → Bool
  has h s = elim (get h s) [ none ↦ false | some _ ↦ true ]

  -- The hashes of a block's transactions.
  unfoldable pub committed_of : List (Option H) → Map H Unit → Map H Unit
  committed_of [] s = s
  committed_of (none ∷ hs) s = committed_of hs s
  committed_of (some h ∷ hs) s = committed_of hs (insert h tt s)

module _ {T H : Type 0} ⦃o : Ordered H⦄ where
  -- `push`, of a transaction whose hash is given, if it has one.
  unfoldable pub push : T → Option H → Mempool T H → Bool × Mempool T H
  push tx none mp = (false, mp)
  push tx (some h) mp =
      if has h mp.queued || has h mp.seen_set
      then (false, mp)
      else if leb max_queue_len (length mp.queue)
      then (false, mp)
      else (true, record mp { queue = mp.queue ++ (tx, h) ∷ []; queued = insert h tt mp.queued })

  -- `batch`
  unfoldable pub batch : ℕ → Mempool T H → List T
  batch max mp = map (λ e. e.0) (take max mp.queue)

  unfoldable pub keep_uncommitted : Map H Unit → List (T × H) → List (T × H)
  keep_uncommitted s [] = []
  keep_uncommitted s ((tx, h) ∷ queue) =
      let rest = keep_uncommitted s queue in if has h s then rest else (tx, h) ∷ rest

  -- The end of one turn: the oldest of the hashes seen goes when there are too many.
  unfoldable pub shorten : List H → Mempool T H → Mempool T H
  shorten [] mp = mp
  shorten (old ∷ seen) mp =
      if ltb seen_cap (length (old ∷ seen))
      then record mp { seen = seen; seen_set = remove old mp.seen_set }
      else mp

  -- One turn of the loop over the committed hashes.
  unfoldable pub commit_one : H → Mempool T H → Mempool T H
  unfolding shorten
  commit_one h mp =
      let mp' = record mp { queued = remove h mp.queued } in
      if has h mp'.seen_set
      then mp'
      else let grown = mp'.seen ++ h ∷ [] in
        shorten grown (record mp' { seen = grown; seen_set = insert h tt mp'.seen_set })

  unfoldable pub commit_each : List H → Mempool T H → Mempool T H
  unfolding commit_one
  commit_each [] mp = mp
  commit_each (h ∷ hs) mp = commit_each hs (commit_one h mp)

  -- `remove_committed`, with the walk of the hash set.
  unfoldable pub remove_committed :
      (Map H Unit → List H) → List (Option H) → Mempool T H → Mempool T H
  unfolding committed_of keep_uncommitted commit_each
  remove_committed walk hashes mp =
      let committed = committed_of hashes [] in
      commit_each (walk committed) (record mp { queue = keep_uncommitted committed mp.queue })
