-- ===== src/State/Root/Levels/Built.antt =====
-- `built` and `path` of `SectionTree`, crates/state/src/root.rs, against `merkle`.
use edet.Base.{
  ℕ, zero, suc, ◌+◌, ◌-◌, ◌≤◌, ◌<◌, ◌≡◌, refl, sym, ap, ◌∙◌, inl, inr, true, false, none, some,
  List, [], ◌∷◌, arith, ltb, leb, ◌==◌, if◌then◌else◌, Bool-cases, length, get_or, ◌%◌, ◌/◌,
}
use edet.Bytes.{Bytes}
use edet.State.Root.{Section, section_hash}
use edet.State.Root.Tree.{climb, merkle, push_sibling}
use edet.State.Root.Tree.Raise.{raise, beside, up-fold_level, length-raise}
use edet.State.Root.Tree.Round.{climb_one, climb_more, climb_top, crown, crown_one, crown_more}
use edet.State.Root.Levels.{build_levels, built, leaves_root, last_level, path, path_from, hashes}

one_more : (n : ℕ) → ltb 1 n ≡ true → leb n 1 ≡ false
one_more n h = ground (arith, h)

one_less : (n : ℕ) → ltb 1 n ≡ false → leb n 1 ≡ true
one_less n h = ground (arith, h)

pub length-hashes : (leaves : List (Bytes × Bytes)) → length (hashes leaves) ≡ length leaves
length-hashes [] = refl
length-hashes (_ ∷ leaves) = ap suc (length-hashes leaves)

module _ (sha256 : Bytes → Bytes) where
  -- The levels above a level.
  abbrev pub uppers : ℕ → List Bytes → List (List Bytes)
  uppers zero level = []
  uppers (suc fuel) level =
      let above = uppers fuel (raise sha256 level) in
      if ltb 1 (length level) then raise sha256 level ∷ above else []

  pub build_levels_lem :
      (fuel : ℕ) (level : List Bytes) → build_levels sha256 fuel level ≡ level ∷ uppers fuel level
  unfolding build_levels
  build_levels_lem zero level = refl
  build_levels_lem (suc fuel) level =
      rw (up-fold_level sha256 level none, build_levels_lem fuel (raise sha256 level))
        (ground arith)

  uppers_more :
      (fuel : ℕ) (level : List Bytes)
      → ltb 1 (length level) ≡ true
      → uppers (suc fuel) level ≡ raise sha256 level ∷ uppers fuel (raise sha256 level)
  uppers_more fuel level h = rw h refl

  uppers_one :
      (fuel : ℕ) (level : List Bytes) → ltb 1 (length level) ≡ false → uppers fuel level ≡ []
  uppers_one zero level h = refl
  uppers_one (suc fuel) level h = rw h refl

  crown-uppers :
      (fuel : ℕ) (level : List Bytes)
      → last_level (level ∷ uppers fuel level) ≡ crown sha256 fuel level
  crown-uppers zero level = refl
  crown-uppers (suc fuel) level = elim (Bool-cases (ltb 1 (length level))) [
    | inl more ↦
        rw (uppers_more fuel level more, crown_more sha256 fuel level more)
          (crown-uppers fuel (raise sha256 level))
    | inr one ↦ rw (uppers_one (suc fuel) level one, crown_one sha256 (suc fuel) level one) refl
  ]

  abbrev siblings : List Bytes → ℕ → List Bytes → List Bytes
  siblings level t above =
      if t % 2 == 0
      then (if ltb (t + 1) (length level) then get_or level (t + 1) [] ∷ above else above)
      else get_or level (t - 1) [] ∷ above

  siblings_later :
      (l r : Bytes) (level : List Bytes) (t : ℕ) (above : List Bytes)
      → siblings (l ∷ r ∷ level) (suc (suc t)) above ≡ siblings level t above
  siblings_later l r level zero above = ground arith
  siblings_later l r level (suc t) above =
      let less : suc (suc (suc t)) - 1 ≡ suc (suc t) = omega arith in
      let less' : suc t - 1 ≡ t = omega arith in
      let more : suc (suc (suc t)) + 1 ≡ suc (suc (suc t + 1)) = omega arith in
      let odd : suc (suc (suc t)) % 2 ≡ suc t % 2 = omega arith in
      rw (less, less', more, odd) (ground arith)

  -- The sibling that `path` takes is the one that `fold_level` gives.
  siblings-beside :
      (level : List Bytes) (t : ℕ) (above : List Bytes)
      → t < length level
      → siblings level t above ≡ push_sibling (beside sha256 level t) above
  siblings-beside [] t above h = elim h [ ]
  siblings-beside (only ∷ []) t above h = ground arith
  siblings-beside (l ∷ r ∷ level) zero above h = ground arith
  siblings-beside (l ∷ r ∷ level) (suc zero) above h = ground arith
  siblings-beside (l ∷ r ∷ level) (suc (suc t)) above h =
      siblings_later l r level t above ∙ siblings-beside level t above (omega arith)

  path_from_more :
      (level : List Bytes) (t : ℕ) (levels : List (List Bytes))
      → t < length level
      → ltb 1 (length level) ≡ true
      → path_from t (level ∷ levels)
        ≡ push_sibling (beside sha256 level t) (path_from (t / 2) levels)
  unfolding path_from
  path_from_more level t levels h more =
      rw (one_more (length level) more) (siblings-beside level t (path_from (t / 2) levels) h)

  path_from_one :
      (level : List Bytes) (t : ℕ) (levels : List (List Bytes))
      → ltb 1 (length level) ≡ false
      → path_from t (level ∷ levels) ≡ []
  unfolding path_from
  path_from_one level t levels h = rw (one_less (length level) h) refl

  path_from-climb :
      (fuel : ℕ) (level : List Bytes) (t : ℕ)
      → length level ≤ fuel
      → t < length level
      → path_from t (level ∷ uppers fuel level) ≡ (climb sha256 fuel level (some t)).1
  path_from-climb zero level t le h = absurd (omega arith)
  path_from-climb (suc fuel) level t le h = elim (Bool-cases (ltb 1 (length level))) [
    | inl more ↦
        let up = raise sha256 level in
        path_from_more level t (uppers (suc fuel) level) h more
        ∙ rw (climb_more sha256 fuel level t more h, uppers_more fuel level more)
            (ap (push_sibling (beside sha256 level t)) (
              path_from-climb fuel up (t / 2) (ground (arith, more, length-raise sha256 level))
                (omega (arith, length-raise sha256 level))))
    | inr one ↦
        path_from_one level t (uppers (suc fuel) level) one
        ∙ ap (λ (x : List Bytes × List Bytes). x.1)
            (sym (climb_one sha256 (suc fuel) level (some t) one))
  ]

  crown_top :
      (fuel : ℕ) (level : List Bytes) → 0 < length level → 0 < length (crown sha256 fuel level)
  crown_top zero level h = h
  crown_top (suc fuel) level h = elim (Bool-cases (ltb 1 (length level))) [
    | inl more ↦
        rw (crown_more sha256 fuel level more)
          (crown_top fuel (raise sha256 level) (omega (arith, length-raise sha256 level)))
    | inr one ↦ rw (crown_one sha256 (suc fuel) level one) h
  ]

  leaves_root_some :
      (levels : List (List Bytes)) (top : List Bytes)
      → last_level levels ≡ top
      → 0 < length top
      → leaves_root sha256 levels ≡ get_or top 0 []
  unfolding leaves_root
  leaves_root_some levels [] e h = elim h [ ]
  leaves_root_some levels (x ∷ top) e h = rw (e, leaves_root) refl

  leaves_root_lem :
      (leaves : List Bytes)
      → leaves_root sha256 (build_levels sha256 (length leaves) leaves)
        ≡ (merkle sha256 leaves none).0
  unfolding merkle leaves_root build_levels
  leaves_root_lem [] = refl
  leaves_root_lem (leaf ∷ leaves) =
      let n = length (leaf ∷ leaves) in
      let level = leaf ∷ leaves in
      let top = crown sha256 n level in
      leaves_root_some (build_levels sha256 n level) top
        (ap last_level (build_levels_lem n level) ∙ crown-uppers n level)
        (crown_top n level (omega arith))
      ∙ ap (λ (x : List Bytes). get_or x 0 []) (sym (climb_top sha256 n level none))

  -- The tree's root is `section_hash` of the root that `merkle` folds.
  pub root-built :
      (section : Section) (leaves : List (Bytes × Bytes))
      → (built sha256 section leaves).root
        ≡ section_hash sha256 section (length leaves) (merkle sha256 (hashes leaves) none).0
  unfolding built
  root-built section leaves = rw⁻¹ (leaves_root_lem (hashes leaves), length-hashes leaves) refl

  path_levels :
      (leaves : List Bytes) (index : ℕ)
      → index < length leaves
      → path_from index (build_levels sha256 (length leaves) leaves)
        ≡ (merkle sha256 leaves (some index)).1
  unfolding merkle
  path_levels [] index h = elim h [ ]
  path_levels (leaf ∷ leaves) index h =
      let n = length (leaf ∷ leaves) in
      ap (path_from index) (build_levels_lem n (leaf ∷ leaves))
      ∙ path_from-climb n (leaf ∷ leaves) index (omega arith) h

  -- The path read off a section's tree is the path that `merkle` gives, for a place inside the
  -- section.
  pub path-built :
      (section : Section) (leaves : List (Bytes × Bytes)) (index : ℕ)
      → index < length leaves
      → path (built sha256 section leaves) index ≡ (merkle sha256 (hashes leaves) (some index)).1
  unfolding path built
  path-built section leaves index h =
      ap (λ n. path_from index (build_levels sha256 n (hashes leaves))) (sym (length-hashes leaves))
      ∙ path_levels (hashes leaves) index (omega (arith, length-hashes leaves))
