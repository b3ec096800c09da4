-- ===== src/State/Root/Tree/Raise.antt =====
-- One level of the tree, as `fold_level` computes it.
use edet.Base.{
  ℕ, zero, suc, ◌+◌, ◌*◌, ◌<◌, ◌≡◌, refl, ap, ◌∙◌, Option, none, some, List, [], ◌∷◌, arith, length,
  get_or, ◌/◌,
}
use edet.Bytes.{Bytes}
use edet.State.Root.{inner_hash}
use edet.State.Root.Tree.{rise, push_sibling, fold_pairs, fold_level, rise, push_sibling}

module _ (sha256 : Bytes → Bytes) where
  -- The level above.
  abbrev pub raise : List Bytes → List Bytes
  raise [] = []
  raise (only ∷ []) = only ∷ []
  raise (l ∷ r ∷ level) = inner_hash sha256 l r ∷ raise level

  -- The node beside the `j`-th.
  abbrev pub beside : List Bytes → ℕ → Option Bytes
  beside [] j = none
  beside (only ∷ []) j = none
  beside (l ∷ r ∷ level) zero = some r
  beside (l ∷ r ∷ level) (suc zero) = some l
  beside (l ∷ r ∷ level) (suc (suc j)) = beside level j

  pub up-fold_pairs :
      (i : ℕ) (level : List Bytes) (track : Option ℕ)
      → (fold_pairs sha256 i level track).0 ≡ raise level
  unfolding fold_pairs
  up-fold_pairs i [] track = refl
  up-fold_pairs i (only ∷ []) track = refl
  up-fold_pairs i (l ∷ r ∷ level) track = ground (arith, up-fold_pairs (i + 1) level track)

  pub track-fold_pairs :
      (i : ℕ) (level : List Bytes) (j t : ℕ)
      → j < length level
      → t ≡ 2 * i + j
      → ((fold_pairs sha256 i level (some t)).1 ≡ some (i + j / 2))
        × ((fold_pairs sha256 i level (some t)).2 ≡ beside level j)
  unfolding fold_pairs
  track-fold_pairs i [] j t h e = elim h [ ]
  track-fold_pairs i (only ∷ []) j t h e = ground arith
  track-fold_pairs i (l ∷ r ∷ level) zero t h e = ground arith
  track-fold_pairs i (l ∷ r ∷ level) (suc zero) t h e = ground arith
  track-fold_pairs i (l ∷ r ∷ level) (suc (suc j)) t h e =
      ground (arith, track-fold_pairs (i + 1) level j t (omega arith) (omega arith))

  pub up-fold_level :
      (level : List Bytes) (track : Option ℕ) → (fold_level sha256 level track).0 ≡ raise level
  unfolding fold_level
  up-fold_level level track = up-fold_pairs 0 level track

  pub track-fold_level :
      (level : List Bytes) (j : ℕ)
      → j < length level
      → ((fold_level sha256 level (some j)).1 ≡ some (j / 2))
        × ((fold_level sha256 level (some j)).2 ≡ beside level j)
  unfolding fold_level
  track-fold_level level j h =
      let (next, sibling) = track-fold_pairs 0 level j j h (omega arith) in
      (next ∙ ap some (omega arith), sibling)

  pub length-raise : (level : List Bytes) → length (raise level) ≡ (length level + 1) / 2
  length-raise [] = omega arith
  length-raise (only ∷ []) = omega arith
  length-raise (l ∷ r ∷ level) = omega (arith, length-raise level)

  rise_later :
      (acc : Bytes) (t m : ℕ) (steps : List Bytes)
      → rise sha256 acc (suc (suc t)) (suc (suc m)) steps ≡ rise sha256 acc t m steps
  unfolding rise
  rise_later acc t m [] = ground arith
  rise_later acc t m (s ∷ steps) = ground arith

  half_later : (j : ℕ) → suc (suc j) / 2 ≡ suc (j / 2)
  half_later j = omega arith

  -- A turn of `fold_path` takes the `j`-th node, with the node beside it, to the one above.
  pub rise-beside :
      (level : List Bytes) (j : ℕ) (steps : List Bytes)
      → j < length level
      → rise sha256 (get_or level j []) j (length level) (push_sibling (beside level j) steps)
        ≡ some (get_or (raise level) (j / 2) [], steps)
  unfolding rise
  rise-beside [] j steps h = elim h [ ]
  rise-beside (only ∷ []) zero steps h = ground arith
  rise-beside (only ∷ []) (suc j) steps h = ground arith
  rise-beside (l ∷ r ∷ level) zero steps h = ground arith
  rise-beside (l ∷ r ∷ level) (suc zero) steps h = ground arith
  rise-beside (l ∷ r ∷ level) (suc (suc j)) steps h =
      rise_later (get_or level j []) j (length level) (push_sibling (beside level j) steps)
      ∙ rise-beside level j steps (omega arith)
      ∙ rw (half_later j) refl
