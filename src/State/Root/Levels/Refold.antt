-- ===== src/State/Root/Levels/Refold.antt =====
-- `refold` against a tree built anew.
use edet.Base.{
  ℕ, zero, suc, ◌+◌, ◌-◌, ◌*◌, ◌≤◌, ◌<◌, ◌≡◌, refl, sym, ap, ◌∙◌, inl, inr, true, false, List, [],
  ◌∷◌, arith, dec_lt, ltb, leb, ◌==◌, if◌then◌else◌, Bool-cases, length, get_or, ◌/◌, subst, either,
}
use edet.Base.Indexing.{list_ext}
use edet.Map.{Map}
use edet.Bytes.{Bytes}
use edet.State.Root.{Section, section_hash}
use edet.State.Root.Tree.Raise.{raise, length-raise}
use edet.State.Root.Levels.{
  SectionTree, hashes, built, refold, build_levels, leaves_root, mark_above, node_at, rewrite_above,
  refold_above, first_level, later_levels, resize, write_nodes,
}
use edet.State.Root.Levels.Built.{uppers, build_levels_lem, length-hashes}
use edet.State.Root.Levels.Marks.{
  IsMarked, marked, marked-mark_above, mark_above_grown, length-resize, get_or-resize,
  length-write_nodes, get_or-write_nodes,
}

length-fitted :
    (dst : List Bytes) (want : ℕ)
    → length (if length dst == want then dst else resize dst want) ≡ want
length-fitted dst want = ground (arith, length-resize dst want)

get_or-fitted :
    (dst : List Bytes) (want j : ℕ)
    → j < length dst
    → j < want
    → get_or (if length dst == want then dst else resize dst want) j [] ≡ get_or dst j []
get_or-fitted dst want j h lt =
    either (λ (xs : List Bytes). get_or xs j [] ≡ get_or dst j []) (length dst == want) dst
      (resize dst want) refl (get_or-resize dst want j h lt)

module _ (sha256 : Bytes → Bytes) where
  node_at_later :
      (l r : Bytes) (src : List Bytes) (j : ℕ)
      → node_at sha256 (l ∷ r ∷ src) (suc j) ≡ node_at sha256 src j
  unfolding node_at
  node_at_later l r src j =
      let two : 2 * suc j ≡ suc (suc (2 * j)) = omega arith in
      let three : suc (suc (2 * j)) + 1 ≡ suc (suc (2 * j + 1)) = omega arith in
      rw two (rw three (ground arith))

  -- The node above a pair is what `fold_level` puts there.
  get_or-raise :
      (src : List Bytes) (j : ℕ)
      → j < (length src + 1) / 2
      → get_or (raise sha256 src) j [] ≡ node_at sha256 src j
  unfolding node_at
  get_or-raise [] j h = absurd (omega arith)
  get_or-raise (only ∷ []) zero h = ground arith
  get_or-raise (only ∷ []) (suc j) h = absurd (omega arith)
  get_or-raise (l ∷ r ∷ src) zero h = ground arith
  get_or-raise (l ∷ r ∷ src) (suc j) h =
      get_or-raise src j (omega arith) ∙ sym (node_at_later l r src j)

  node_at_same :
      (dirty : Map ℕ Unit) (old src : List Bytes) (j : ℕ)
      → IsMarked dirty old src
      → j < (length src + 1) / 2
      → marked (2 * j) dirty ≡ false
      → marked (2 * j + 1) dirty ≡ false
      → (2 * j < length old) × (node_at sha256 src j ≡ node_at sha256 old j)
  unfolding node_at
  node_at_same dirty old src j h lt m0 m1 =
      let even = h.same (2 * j) (omega arith) m0 in
      ground (arith, even, h.same (2 * j + 1), m1, h.grown)

  -- The level above, as it was before.
  abbrev pub uppers_first : List Bytes → List Bytes
  uppers_first old = if ltb 1 (length old) then raise sha256 old else []

  dst_raise :
      (old dst : List Bytes) → dst ≡ uppers_first old → 0 < length dst → dst ≡ raise sha256 old
  dst_raise old dst e h = elim (Bool-cases (ltb 1 (length old))) [
    | inl more ↦ e ∙ rw more refl
    | inr one ↦ let gone : dst ≡ [] = e ∙ rw one refl in absurd (omega (arith, ap length gone))
  ]

  unmarked_below :
      (dirty : Map ℕ Unit) (src dst : List Bytes) (j i : ℕ)
      → i / 2 ≡ j
      → marked j (mark_above src dirty dst) ≡ false
      → marked i dirty ≡ false
  unmarked_below dirty src dst j i e h = elim (Bool-cases (marked i dirty)) [
    | inl on ↦
        let up : marked j (mark_above src dirty dst) ≡ true =
          subst (λ k. marked k (mark_above src dirty dst) ≡ true) e
            (marked-mark_above i src dirty dst on) in
        cc (h, up)
    | inr off ↦ off
  ]

  unmarked_within :
      (dirty : Map ℕ Unit) (src dst : List Bytes) (j : ℕ)
      → length dst ≤ (length src + 1) / 2
      → j < (length src + 1) / 2
      → marked j (mark_above src dirty dst) ≡ false
      → j < length dst
  unmarked_within dirty src dst j le lt h = elim (dec_lt j (length dst)) [
    | yes p ↦ p
    | no p ↦
        let up = mark_above_grown j src dirty dst (λ e. p (omega arith)) (omega (arith, p)) lt in
        cc (h, up)
  ]

  -- The marks of a turn say of the level above what the marks before it said of the level.
  above-IsMarked :
      (dirty : Map ℕ Unit) (old src dst : List Bytes)
      → IsMarked dirty old src
      → dst ≡ uppers_first old
      → IsMarked (mark_above src dirty dst) dst (raise sha256 src)
  above-IsMarked dirty old src dst h e =
      let le : length dst ≤ (length src + 1) / 2 =
        ground (arith, ap length e, length-raise sha256 old, h.grown) in
      record {
        grown = omega (arith, le, length-raise sha256 src);
        same = λ j lt off.
            let lt' : j < (length src + 1) / 2 = omega (arith, length-raise sha256 src) in
            let within = unmarked_within dirty src dst j le lt' off in
            let (here, node) =
              node_at_same dirty old src j h lt'
                (unmarked_below dirty src dst j (2 * j) (omega arith) off)
                (unmarked_below dirty src dst j (2 * j + 1) (omega arith) off) in
            let before =
              ap (λ (xs : List Bytes). get_or xs j [])
                (sym (dst_raise old dst e (omega (arith, within)))) in
            (
              within,
              get_or-raise src j lt' ∙ node ∙ sym (get_or-raise old j (omega arith)) ∙ before,
            );
      }

  -- A turn makes the level above what it is in a tree built anew.
  rewrite_above_lem :
      (dirty : Map ℕ Unit) (old src dst : List Bytes)
      → IsMarked dirty old src
      → dst ≡ uppers_first old
      → rewrite_above sha256 src dirty dst ≡ raise sha256 src
  unfolding rewrite_above
  rewrite_above_lem dirty old src dst h e =
      let marks = mark_above src dirty dst in
      let want = (length src + 1) / 2 in
      let base : List Bytes = if length dst == want then dst else resize dst want in
      let size : length base ≡ want = length-fitted dst want in
      let above = above-IsMarked dirty old src dst h e in
      list_ext [] (write_nodes sha256 src marks base) (raise sha256 src)
        (length-write_nodes sha256 src marks base ∙ size ∙ sym (length-raise sha256 src))
        (λ j lt.
          let lt' : j < want = omega (arith, lt, length-write_nodes sha256 src marks base, size) in
          get_or-write_nodes sha256 src marks base j (omega (arith, size))
          ∙ elim (Bool-cases (marked j marks)) [
            | inl on ↦ rw on (sym (get_or-raise src j lt'))
            | inr off ↦
                let (within, same) = above.same j (omega (arith, length-raise sha256 src)) off in
                rw off (get_or-fitted dst want j within lt' ∙ sym same)
          ])

  uppers_none : (fuel : ℕ) → uppers sha256 fuel [] ≡ []
  uppers_none zero = refl
  uppers_none (suc fuel) = refl

  -- The first and the later of the levels above.
  uppers_parts :
      (more : ℕ) (old : List Bytes)
      → length old ≤ more
      → let dst = first_level (uppers sha256 more old) in
        (dst ≡ uppers_first old)
        × (later_levels (uppers sha256 more old) ≡ uppers sha256 (more - 1) dst)
        × (length dst ≤ more - 1)
  uppers_parts zero [] h = (refl, refl, omega arith)
  uppers_parts zero (x ∷ old) h = absurd (omega arith)
  uppers_parts (suc more) old h =
      let less : suc more - 1 ≡ more = omega arith in
      elim (Bool-cases (ltb 1 (length old))) [
        | inl many ↦ rw many (
          refl,
          ap (λ k. uppers sha256 k (raise sha256 old)) (sym less),
          ground (arith, less, many, length-raise sha256 old),
        )
        | inr one ↦ rw one (refl, sym (uppers_none (suc more - 1)), omega arith)
      ]

  if_more :
      (n : ℕ) {a b : List Bytes} {later later' : List (List Bytes)}
      → ltb 1 n ≡ true
      → a ≡ b
      → later ≡ later'
      → (if leb n 1 then [] else a ∷ later) ≡ (if ltb 1 n then b ∷ later' else [])
  if_more n h e f = ground (arith, h, e, f)

  -- Refolding a level that changed only at the marks gives the levels of a tree built anew.
  pub refold_above_lem :
      (fuel more : ℕ) (dirty : Map ℕ Unit) (old src : List Bytes)
      → length src ≤ fuel
      → length old ≤ more
      → IsMarked dirty old src
      → refold_above sha256 fuel src dirty (uppers sha256 more old) ≡ uppers sha256 fuel src
  unfolding refold_above
  refold_above_lem zero more dirty old src le lo h = refl
  refold_above_lem (suc fuel) more dirty old src le lo h =
      let dst = first_level (uppers sha256 more old) in
      let above = later_levels (uppers sha256 more old) in
      let marks = mark_above src dirty dst in
      let (first, later, small) = uppers_parts more old lo in
      let fresh = rewrite_above_lem dirty old src dst h first in
      elim (Bool-cases (ltb 1 (length src))) [
        | inr one ↦ ground (arith, one)
        | inl many ↦
            let size : length (raise sha256 src) ≤ fuel =
              ground (arith, many, length-raise sha256 src) in
            let next =
              refold_above_lem fuel (more - 1) marks dst (raise sha256 src) size small
                (above-IsMarked dirty old src dst h first) in
            let rest =
              ap (λ (x : List Bytes). refold_above sha256 fuel x marks above) fresh
              ∙ ap (refold_above sha256 fuel (raise sha256 src) marks) later
              ∙ next in
            if_more (length src) many fresh rest
      ]

  -- A section's tree once leaves of it have changed, before its levels are refolded.
  abbrev pub changed : SectionTree → List (Bytes × Bytes) → SectionTree
  changed tree leaves = record tree {
    leaves = leaves;
    levels = hashes leaves ∷ later_levels tree.levels;
  }

  -- Where the tree was built from its old leaves, no leaf went, and the marks hold every leaf that
  -- changed or came to be, refolding gives the tree built from the new leaves.
  pub refold-built :
      (section : Section) (dirty : Map ℕ Unit) (old leaves : List (Bytes × Bytes))
      → IsMarked dirty (hashes old) (hashes leaves)
      → refold sha256 section dirty (changed (built sha256 section old) leaves)
        ≡ built sha256 section leaves
  unfolding refold built
  refold-built section dirty old leaves h =
      let n = length (hashes leaves) in
      let refolded =
        refold_above_lem n (length old) dirty (hashes old) (hashes leaves) (omega arith)
          (omega (arith, length-hashes old)) h in
      let kept = ap later_levels (build_levels_lem sha256 (length old) (hashes old)) in
      let levels =
        ap
          (λ (above : List (List Bytes)).
            hashes leaves ∷ refold_above sha256 n (hashes leaves) dirty above)
          kept
        ∙ ap (λ (above : List (List Bytes)). hashes leaves ∷ above) refolded
        ∙ sym (build_levels_lem sha256 n (hashes leaves))
        ∙ ap (λ k. build_levels sha256 k (hashes leaves)) (length-hashes leaves) in
      ap
        (λ (ls : List (List Bytes)). record {
          leaves = leaves;
          levels = ls;
          root = section_hash sha256 section (length leaves) (leaves_root sha256 ls);
        })
        levels
