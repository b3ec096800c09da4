-- ===== src/State/Root/Tree.antt =====
-- `fold_level`, `merkle` and `fold_path` of crates/state/src/root.rs: the tree over a list of leaf
-- hashes. A last node of an odd level rises without a sibling.
pub mod Raise
pub mod Round
pub mod Binding
use edet.Base.{
  ℕ, zero, suc, ◌+◌, ◌*◌, Bool, true, false, Option, none, some, List, [], ◌∷◌, ltb, leb, ◌==◌,
  if◌then◌else◌, length, get_or, ◌%◌, ◌/◌,
}
use edet.Bytes.{Bytes}
use edet.State.Root.{inner_hash, empty_section}

-- `track == Some(k)`
abbrev pub is_at : Option ℕ → ℕ → Bool
is_at none k = false
is_at (some t) k = t == k

-- The siblings that a level adds to the path.
abbrev pub push_sibling : Option Bytes → List Bytes → List Bytes
push_sibling none path = path
push_sibling (some s) path = s ∷ path

-- `steps.next()?`, and what is made of it.
abbrev pub with_next : (Bytes → Bytes) → List Bytes → Option (Bytes × List Bytes)
with_next f [] = none
with_next f (s ∷ steps) = some (f s, steps)

module _ (sha256 : Bytes → Bytes) where
  -- The pairs of a level from the `i`-th on: the level above, where the tracked node rises to, and
  -- its sibling.
  unfoldable pub fold_pairs : ℕ → List Bytes → Option ℕ → List Bytes × Option ℕ × Option Bytes
  unfolding inner_hash
  fold_pairs i [] track = ([], none, none)
  fold_pairs i (only ∷ []) track = (only ∷ [], if is_at track (2 * i) then some i else none, none)
  fold_pairs i (l ∷ r ∷ level) track =
      let (up, next_track, sibling) = fold_pairs (i + 1) level track in
      if is_at track (2 * i)
      then (inner_hash sha256 l r ∷ up, some i, some r)
      else if is_at track (2 * i + 1)
      then (inner_hash sha256 l r ∷ up, some i, some l)
      else (inner_hash sha256 l r ∷ up, next_track, sibling)

  unfoldable pub fold_level : List Bytes → Option ℕ → List Bytes × Option ℕ × Option Bytes
  unfolding fold_pairs
  fold_level level track = fold_pairs 0 level track

  -- The loop of `merkle`, on fuel: the last level and the path.
  unfoldable pub climb : ℕ → List Bytes → Option ℕ → List Bytes × List Bytes
  unfolding fold_level
  climb zero level track = (level, [])
  climb (suc fuel) level track = elim (ltb 1 (length level)) [
    | false ↦ (level, [])
    | true ↦
        let (up, next_track, sibling) = fold_level level track in
        let (top, path) = climb fuel up next_track in (top, push_sibling sibling path)
  ]

  -- `merkle`: a level is shorter than the one below it, so the leaves bound the levels.
  unfoldable pub merkle : List Bytes → Option ℕ → Bytes × List Bytes
  unfolding climb empty_section
  merkle [] index = (empty_section sha256, [])
  merkle (leaf ∷ leaves) index =
      let (top, path) = climb (length (leaf ∷ leaves)) (leaf ∷ leaves) index in
      (get_or top 0 [], path)

  -- One turn of `fold_path`: the node above, and the siblings left.
  unfoldable pub rise : Bytes → ℕ → ℕ → List Bytes → Option (Bytes × List Bytes)
  unfolding inner_hash
  rise acc t m steps =
      if t % 2 == 0
      then (if ltb (t + 1) m
          then with_next (λ s. inner_hash sha256 acc s) steps
          else some (acc, steps))
      else with_next (λ s. inner_hash sha256 s acc) steps

  -- The loop of `fold_path`, on fuel.
  unfoldable pub fold_steps : ℕ → Bytes → ℕ → ℕ → List Bytes → Option (Bytes × List Bytes)
  unfolding rise
  fold_steps zero acc t m steps = some (acc, steps)
  fold_steps (suc fuel) acc t m steps = elim (ltb 1 m) [
    | false ↦ some (acc, steps)
    | true ↦ elim (rise acc t m steps) [
      | none ↦ none
      | some (acc, steps) ↦ fold_steps fuel acc (t / 2) ((m + 1) / 2) steps
    ]
  ]

  -- `fold_path`
  unfoldable pub fold_path : Bytes → ℕ → ℕ → List Bytes → Option Bytes
  unfolding fold_steps
  fold_path leaf index count siblings =
      if leb count index then none else elim (fold_steps count leaf index count siblings) [
        | none ↦ none
        | some (acc, []) ↦ some acc
        | some (acc, _ ∷ _) ↦ none
      ]
