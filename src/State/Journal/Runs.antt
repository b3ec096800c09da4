-- ===== src/State/Journal/Runs.antt =====
-- Runs of operations on a journal that was just drained.
use edet.Base.{◌≡◌, false, List, [], ◌∷◌, All}
use edet.Map.{Map, get, IsSorted}
use edet.Map.Keys.{Ordered}
use edet.Map.Laws.{retain-IsSorted}
use edet.State.Journal.{
  Journal, Op, touch_of, put_of, delete_of, get_mut_of, entry_of, raw_of, deref_of, keep_of,
  clear_of, apply_op, run, reports, deref_mut, keep, clear, take_dirty,
}
use edet.State.Journal.Changes.{
  Tracks, Unlisted, take_dirty-Tracks, touch-Tracks, put-Tracks, delete-Tracks, get_mut-Tracks,
  entry-Tracks, raw_mut-Tracks, all-Tracks,
}

module _ {K V : Type 0} ⦃o : Ordered K⦄ where
  -- What a caller owes: a map stays a map, and a raw write changes only the keys it touches.
  abbrev pub IsHonest : Op K V → Type 0
  IsHonest (raw_of g ks) =
      (m : Map K V)
      → IsSorted m
      → IsSorted (g m) × ((i : K) → Unlisted i ks → get i (g m) ≡ get i m)
  IsHonest (deref_of g) = (m : Map K V) → IsSorted m → IsSorted (g m)
  IsHonest _ = Unit

  apply_op-Tracks :
      (old : Map K V) (op : Op K V) (j : Journal K V)
      → IsHonest op
      → Tracks old j
      → Tracks old (apply_op op j)
  unfolding apply_op deref_mut keep clear
  apply_op-Tracks old (touch_of k) j h t = touch-Tracks old k j t
  apply_op-Tracks old (put_of k v) j h t = put-Tracks old k v j t
  apply_op-Tracks old (delete_of k) j h t = delete-Tracks old k j t
  apply_op-Tracks old (get_mut_of k f) j h t = get_mut-Tracks old k f j t
  apply_op-Tracks old (entry_of k f) j h t = entry-Tracks old k f j t
  apply_op-Tracks old (raw_of g ks) j h t =
      let (s, same) = h j.rows t.sorted in raw_mut-Tracks old g ks j t s same
  apply_op-Tracks old (deref_of g) j h t = all-Tracks old (g j.rows) (h j.rows t.sorted)
  apply_op-Tracks old (keep_of p) j h t = all-Tracks old _ (retain-IsSorted p j.rows t.sorted)
  apply_op-Tracks old clear_of j h t = all-Tracks old [] tt

  run-Tracks :
      (old : Map K V) (ops : List (Op K V)) (j : Journal K V)
      → All IsHonest ops
      → Tracks old j
      → Tracks old (run ops j)
  unfolding run
  run-Tracks old [] j h t = t
  run-Tracks old (op ∷ ops) j h t =
      run-Tracks old ops (apply_op op j) h.1 (apply_op-Tracks old op j h.0 t)

  -- After any run of operations on a journal that was just drained, a key that the record does not
  -- report reads as it did at the drain. A raw write changes only the keys that its caller touches,
  -- and every write leaves the map in key order, as it was at the drain.
  pub run-take_dirty :
      (ops : List (Op K V)) (j : Journal K V) (k : K)
      → All IsHonest ops
      → IsSorted j.rows
      → reports (run ops (take_dirty j).1).dirty k ≡ false
      → get k (run ops (take_dirty j).1).rows ≡ get k j.rows
  run-take_dirty ops j k h s e =
      (run-Tracks j.rows ops (take_dirty j).1 h (take_dirty-Tracks j s)).unchanged k e
