-- ===== src/State/Root/Tree/Round.antt =====
-- The path that `merkle` gives and `fold_path`.
use edet.Base.{
  ℕ, zero, suc, ◌+◌, ◌≤◌, ◌<◌, ◌≡◌, refl, sym, ap, ◌∙◌, inl, inr, true, false, Option, none, some,
  List, [], ◌∷◌, arith, ltb, leb, Bool-cases, length, get_or, ◌/◌,
}
use edet.Bytes.{Bytes}
use edet.State.Root.Tree.{fold_level, climb, merkle, rise, fold_steps, fold_path, push_sibling}
use edet.State.Root.Tree.Raise.{
  raise, beside, up-fold_level, track-fold_level, length-raise, rise-beside,
}

module _ (sha256 : Bytes → Bytes) where
  pub climb_one :
      (fuel : ℕ) (level : List Bytes) (track : Option ℕ)
      → ltb 1 (length level) ≡ false
      → climb sha256 fuel level track ≡ (level, [])
  unfolding climb
  climb_one zero level track h = refl
  climb_one (suc fuel) level track h =
      ap
        (λ b. elim b [
          | false ↦ (level, [])
          | true ↦
              let (up, next_track, sibling) = fold_level sha256 level track in
              let (top, path) = climb sha256 fuel up next_track in (top, push_sibling sibling path)
        ])
        h

  climb_fold :
      (fuel : ℕ) (level : List Bytes) (track : Option ℕ)
      → ltb 1 (length level) ≡ true
      → let (up, next_track, sibling) = fold_level sha256 level track in
        let (top, path) = climb sha256 fuel up next_track in
        climb sha256 (suc fuel) level track ≡ (top, push_sibling sibling path)
  unfolding climb
  climb_fold fuel level track h =
      ap
        (λ b. elim b [
          | false ↦ (level, [])
          | true ↦
              let (up, next_track, sibling) = fold_level sha256 level track in
              let (top, path) = climb sha256 fuel up next_track in (top, push_sibling sibling path)
        ])
        h

  -- The last of the levels above.
  abbrev pub crown : ℕ → List Bytes → List Bytes
  crown zero level = level
  crown (suc fuel) level = elim (ltb 1 (length level)) [
    | false ↦ level
    | true ↦ crown fuel (raise sha256 level)
  ]

  pub crown_one :
      (fuel : ℕ) (level : List Bytes) → ltb 1 (length level) ≡ false → crown fuel level ≡ level
  crown_one zero level h = refl
  crown_one (suc fuel) level h =
      ap (λ b. elim b [ false ↦ level | true ↦ crown fuel (raise sha256 level) ]) h

  pub crown_more :
      (fuel : ℕ) (level : List Bytes)
      → ltb 1 (length level) ≡ true
      → crown (suc fuel) level ≡ crown fuel (raise sha256 level)
  crown_more fuel level h =
      ap (λ b. elim b [ false ↦ level | true ↦ crown fuel (raise sha256 level) ]) h

  -- The tracked node makes no difference to the levels.
  pub climb_top :
      (fuel : ℕ) (level : List Bytes) (track : Option ℕ)
      → (climb sha256 fuel level track).0 ≡ crown fuel level
  unfolding climb
  climb_top zero level track = refl
  climb_top (suc fuel) level track = elim (Bool-cases (ltb 1 (length level))) [
    | inl more ↦
        ap (λ (x : List Bytes × List Bytes). x.0) (climb_fold fuel level track more)
        ∙ climb_top fuel (fold_level sha256 level track).0 (fold_level sha256 level track).1
        ∙ ap (crown fuel) (up-fold_level sha256 level track)
        ∙ sym (crown_more fuel level more)
    | inr one ↦
        ap (λ (x : List Bytes × List Bytes). x.0) (climb_one (suc fuel) level track one)
        ∙ sym (crown_one (suc fuel) level one)
  ]

  -- The path of a node is the node beside it and the path of the node above.
  pub climb_more :
      (fuel : ℕ) (level : List Bytes) (j : ℕ)
      → ltb 1 (length level) ≡ true
      → j < length level
      → let rest = climb sha256 fuel (raise sha256 level) (some (j / 2)) in
        climb sha256 (suc fuel) level (some j)
        ≡ (rest.0, push_sibling (beside sha256 level j) rest.1)
  climb_more fuel level j h lt =
      let (next, sibling) = track-fold_level sha256 level j lt in
      climb_fold fuel level (some j) h
      ∙ rw (up-fold_level sha256 level (some j), next, sibling) refl

  pub fold_steps_one :
      (fuel : ℕ) (acc : Bytes) (t m : ℕ) (steps : List Bytes)
      → ltb 1 m ≡ false
      → fold_steps sha256 fuel acc t m steps ≡ some (acc, steps)
  unfolding fold_steps
  fold_steps_one zero acc t m steps h = refl
  fold_steps_one (suc fuel) acc t m steps h =
      ap
        (λ b. elim b [
          | false ↦ some (acc, steps)
          | true ↦ elim (rise sha256 acc t m steps) [
            | none ↦ none
            | some (acc, steps) ↦ fold_steps sha256 fuel acc (t / 2) ((m + 1) / 2) steps
          ]
        ])
        h

  pub fold_steps_more :
      (fuel : ℕ) (acc : Bytes) (t m : ℕ) (steps : List Bytes) (above : Bytes) (left : List Bytes)
      → ltb 1 m ≡ true
      → rise sha256 acc t m steps ≡ some (above, left)
      → fold_steps sha256 (suc fuel) acc t m steps
        ≡ fold_steps sha256 fuel above (t / 2) ((m + 1) / 2) left
  unfolding fold_steps
  fold_steps_more fuel acc t m steps above left h e =
      ap
        (λ b. elim b [
          | false ↦ some (acc, steps)
          | true ↦ elim (rise sha256 acc t m steps) [
            | none ↦ none
            | some (acc, steps) ↦ fold_steps sha256 fuel acc (t / 2) ((m + 1) / 2) steps
          ]
        ])
        h
      ∙ ap
          (λ (r : Option (Bytes × List Bytes)). elim r [
            | none ↦ none
            | some (acc, steps) ↦ fold_steps sha256 fuel acc (t / 2) ((m + 1) / 2) steps
          ])
          e

  -- Folding a node up its own path ends at the top of the tree.
  pub fold_steps-climb :
      (fuel : ℕ) (level : List Bytes) (j : ℕ)
      → length level ≤ fuel
      → j < length level
      → fold_steps sha256 fuel
          (get_or level j [])
          j
          (length level)
          (climb sha256 fuel level (some j)).1
        ≡ some (get_or (crown fuel level) 0 [], [])
  fold_steps-climb zero level j le lt = absurd (omega arith)
  fold_steps-climb (suc fuel) level j le lt = elim (Bool-cases (ltb 1 (length level))) [
    | inr one ↦
        fold_steps_one (suc fuel) (get_or level j []) j (length level) _ one
        ∙ rw (climb_one (suc fuel) level (some j) one, crown_one (suc fuel) level one)
            (ap (λ k. some (get_or level k [], [])) (ground (arith, one, lt)))
    | inl more ↦
        let up = raise sha256 level in
        rw (climb_more fuel level j more lt, crown_more fuel level more)
          (fold_steps_more fuel (get_or level j []) j (length level) _ _ _ more
              (rise-beside sha256 level j (climb sha256 fuel up (some (j / 2))).1 lt)
            ∙ rw⁻¹ (length-raise sha256 level) (
                fold_steps-climb fuel up (j / 2) (ground (arith, more, length-raise sha256 level))
                  (omega (arith, length-raise sha256 level))))
  ]

  fold_path_ends :
      (leaf : Bytes) (index count : ℕ) (siblings : List Bytes) (acc : Bytes)
      → leb count index ≡ false
      → fold_steps sha256 count leaf index count siblings ≡ some (acc, [])
      → fold_path sha256 leaf index count siblings ≡ some acc
  unfolding fold_path
  fold_path_ends leaf index count siblings acc h e = rw (h, fold_path, e) refl

  pub root-merkle :
      (leaves : List Bytes) (track : Option ℕ)
      → (merkle sha256 leaves track).0 ≡ (merkle sha256 leaves none).0
  unfolding merkle
  root-merkle [] track = refl
  root-merkle (leaf ∷ leaves) track =
      let n = length (leaf ∷ leaves) in
      ap (λ (top : List Bytes). get_or top 0 [])
        (climb_top n (leaf ∷ leaves) track ∙ sym (climb_top n (leaf ∷ leaves) none))

  -- Folding the leaf at a place inside the tree along the path that the tree gives for that place
  -- ends at the tree's root.
  pub fold_path-merkle :
      (leaves : List Bytes) (index : ℕ)
      → index < length leaves
      → fold_path sha256
          (get_or leaves index [])
          index
          (length leaves)
          (merkle sha256 leaves (some index)).1
        ≡ some (merkle sha256 leaves none).0
  unfolding fold_path merkle
  fold_path-merkle [] index h = elim h [ ]
  fold_path-merkle (leaf ∷ leaves) index h =
      let n = length (leaf ∷ leaves) in
      let level = leaf ∷ leaves in
      fold_path_ends (get_or level index []) index n (climb sha256 n level (some index)).1
        (get_or (crown n level) 0 []) (ground (arith, h))
        (fold_steps-climb n level index (omega arith) h)
      ∙ ap (λ (top : List Bytes). some (get_or top 0 [])) (sym (climb_top n level none))
