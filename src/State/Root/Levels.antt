-- ===== src/State/Root/Levels.antt =====
-- `SectionTree` of crates/state/src/root.rs: the levels of one section's tree, kept between blocks.
-- A set of indices is an ordered map to nothing.
pub mod Built
pub mod Marks
pub mod Refold
use edet.Base.{
  ℕ, zero, suc, ◌+◌, ◌-◌, ◌*◌, none, List, [], ◌∷◌, ◌++◌, ltb, leb, ◌==◌, if◌then◌else◌, length,
  get_or, set, replicate, take, ◌/◌, ◌%◌,
}
use edet.Map.{Map, insert}
use edet.Map.Keys.{nat_ordered}
use edet.Bytes.{Bytes}
use edet.State.Root.{Section, inner_hash, section_hash, empty_section}
use edet.State.Root.Tree.{fold_level}

pub record SectionTree : Type 0 where
  pub leaves : List (Bytes × Bytes)
  pub levels : List (List Bytes)
  pub root : Bytes

abbrev pub hashes : List (Bytes × Bytes) → List Bytes
hashes [] = []
hashes ((_, h) ∷ entries) = h ∷ hashes entries

abbrev pub last_level : List (List Bytes) → List Bytes
last_level [] = []
last_level (level ∷ []) = level
last_level (level ∷ next ∷ levels) = last_level (next ∷ levels)

-- `dirty.iter().map(|i| i / 2).collect()`
unfoldable pub halves : Map ℕ Unit → Map ℕ Unit
halves [] = []
halves ((i, _) ∷ dirty) = insert (i / 2) tt (halves dirty)

-- `next.extend(from..to)`, where `n` is how many that are.
unfoldable pub extend_range : ℕ → ℕ → Map ℕ Unit → Map ℕ Unit
extend_range from zero marks = marks
extend_range from (suc n) marks = extend_range (from + 1) n (insert from tt marks)

-- `resize(want, [0u8; 32])`
unfoldable pub resize : List Bytes → ℕ → List Bytes
resize level want = take want (level ++ replicate (want - length level) (replicate 32 0))

-- The siblings of `index`, from this level up.
unfoldable pub path_from : ℕ → List (List Bytes) → List Bytes
path_from t [] = []
path_from t (level ∷ levels) =
    let n = length level in
    let above = path_from (t / 2) levels in
    if leb n 1
    then []
    else if t % 2 == 0
    then (if ltb (t + 1) n then get_or level (t + 1) [] ∷ above else above)
    else get_or level (t - 1) [] ∷ above

-- `path`
unfoldable pub path : SectionTree → ℕ → List Bytes
unfolding path_from
path tree index = path_from index tree.levels

abbrev pub first_level : List (List Bytes) → List Bytes
first_level [] = []
first_level (level ∷ _) = level

abbrev pub later_levels : List (List Bytes) → List (List Bytes)
later_levels [] = []
later_levels (_ ∷ levels) = levels

-- One turn of `refold`: what is marked of the level above.
unfoldable pub mark_above : List Bytes → Map ℕ Unit → List Bytes → Map ℕ Unit
unfolding halves extend_range
mark_above src dirty dst =
    let want = (length src + 1) / 2 in
    let from = length dst - 1 in
    if length dst == want then halves dirty else extend_range from (want - from) (halves dirty)

module _ (sha256 : Bytes → Bytes) where
  -- The loop of `built` over a level, on fuel.
  unfoldable pub build_levels : ℕ → List Bytes → List (List Bytes)
  unfolding fold_level
  build_levels zero level = level ∷ []
  build_levels (suc fuel) level =
      let above = build_levels fuel (fold_level sha256 level none).0 in
      if ltb 1 (length level) then level ∷ above else level ∷ []

  unfoldable pub leaves_root : List (List Bytes) → Bytes
  unfolding empty_section
  leaves_root levels = elim (last_level levels) [ [] ↦ empty_section sha256 | top ∷ _ ↦ top ]

  -- `built`
  unfoldable pub built : Section → List (Bytes × Bytes) → SectionTree
  unfolding build_levels leaves_root section_hash
  built section leaves =
      let levels = build_levels (length leaves) (hashes leaves) in
      record {
        leaves = leaves;
        levels = levels;
        root = section_hash sha256 section (length leaves) (leaves_root levels);
      }

  -- The node above the pair that starts at `2 * j`.
  unfoldable pub node_at : List Bytes → ℕ → Bytes
  unfolding inner_hash
  node_at src j =
      if ltb (2 * j + 1) (length src)
      then inner_hash sha256 (get_or src (2 * j) []) (get_or src (2 * j + 1) [])
      else get_or src (2 * j) []

  -- `for &j in &next`
  unfoldable pub write_nodes : List Bytes → Map ℕ Unit → List Bytes → List Bytes
  unfolding node_at
  write_nodes src [] dst = dst
  write_nodes src ((j, _) ∷ next) dst = write_nodes src next (set dst j (node_at src j))

  -- The level above, after that turn.
  unfoldable pub rewrite_above : List Bytes → Map ℕ Unit → List Bytes → List Bytes
  unfolding write_nodes mark_above resize
  rewrite_above src dirty dst =
      let want = (length src + 1) / 2 in
      write_nodes src (mark_above src dirty dst)
        (if length dst == want then dst else resize dst want)

  -- The loop of `refold` from a level up, on fuel: the levels above it.
  unfoldable pub refold_above : ℕ → List Bytes → Map ℕ Unit → List (List Bytes) → List (List Bytes)
  unfolding rewrite_above mark_above
  refold_above zero src dirty above = []
  refold_above (suc fuel) src dirty above =
      let dst = first_level above in
      let next = rewrite_above src dirty dst in
      let rest = refold_above fuel next (mark_above src dirty dst) (later_levels above) in
      if leb (length src) 1 then [] else next ∷ rest

  -- `refold`
  unfoldable pub refold : Section → Map ℕ Unit → SectionTree → SectionTree
  unfolding refold_above leaves_root section_hash
  refold section dirty tree =
      let src = first_level tree.levels in
      let levels = src ∷ refold_above (length src) src dirty (later_levels tree.levels) in
      record tree {
        levels = levels;
        root = section_hash sha256 section (length tree.leaves) (leaves_root levels);
      }
