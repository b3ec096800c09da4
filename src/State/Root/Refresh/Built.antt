-- ===== src/State/Root/Refresh/Built.antt =====
-- The trees of `RootCache`, crates/state/src/root.rs, through `patch`, `rebuild` and `refresh`.
use edet.Base.{
  ℕ, zero, suc, ◌+◌, ◌<◌, ◌≡◌, refl, sym, ap, ◌∙◌, Option, none, some, List, [], ◌∷◌, arith,
  ℕ_discrete, length, get_or, set, length-set, get_or-set_self, get_or-set_ne, subst,
}
use edet.Map.{Map}
use edet.Bytes.{Bytes}
use edet.State.Root.{
  Section, members, contracts, proposals, validators, stakes, replay, ledger, position,
}
use edet.State.Root.Levels.{SectionTree, built, refold, first_level, later_levels, hashes}
use edet.State.Root.Levels.Built.{build_levels_lem}
use edet.State.Root.Levels.Marks.{IsMarked}
use edet.State.Root.Levels.Refold.{refold-built}
use edet.State.Root.Leaves.{State, Codec, Leaves, ok}
use edet.State.Root.Sections.{section_leaves}
use edet.State.Root.Prove.Found.{and_then_ok, ok_inj, some_inj}
use edet.State.Root.Cache.{Patch, clean, keys, all, RootCache, tree_of, no_tree}
use edet.State.Root.Refresh.{
  Patching, patch_keys, patched, patch, rebuild, apply_patch, refresh_section, refresh_each,
}
use edet.State.Root.Refresh.Patched.{IsPatching, patch_keys-IsPatching, next_ok}

section_at : ℕ → Section
section_at zero = members
section_at (suc zero) = contracts
section_at (suc (suc zero)) = proposals
section_at (suc (suc (suc zero))) = validators
section_at (suc (suc (suc (suc zero)))) = stakes
section_at (suc (suc (suc (suc (suc zero))))) = replay
section_at (suc (suc (suc (suc (suc (suc n)))))) = ledger

section_at-position : (section : Section) → section_at (position section) ≡ section
unfolding section_at position
section_at-position members = refl
section_at-position contracts = refl
section_at-position proposals = refl
section_at-position validators = refl
section_at-position stakes = refl
section_at-position replay = refl
section_at-position ledger = refl

position_inj : (a b : Section) → position a ≡ position b → a ≡ b
position_inj a b e = sym (section_at-position a) ∙ ap section_at e ∙ section_at-position b

pub position_lt : (section : Section) → position section < 7
unfolding position
position_lt members = omega arith
position_lt contracts = omega arith
position_lt proposals = omega arith
position_lt validators = omega arith
position_lt stakes = omega arith
position_lt replay = omega arith
position_lt ledger = omega arith

module _ (sha256 : Bytes → Bytes) where
  -- Every tree of a cache is the one that is built from its leaves.
  pub record IsBuilt (cache : RootCache) : Type 0 where
    pub size : length cache.sections ≡ 7
    pub tree :
        (section : Section)
        → tree_of cache section ≡ built sha256 section (tree_of cache section).leaves

  pub leaves_of_built :
      (section : Section) (tree : SectionTree) (leaves : Leaves)
      → tree ≡ built sha256 section leaves
      → tree ≡ built sha256 section tree.leaves
  unfolding built
  leaves_of_built section tree leaves e =
      e ∙ ap (built sha256 section) (sym (ap (λ (t : SectionTree). t.leaves) e))

  set_tree-IsBuilt :
      (cache next : RootCache) (section : Section) (leaves : Leaves)
      → IsBuilt cache
      → next.sections ≡ set cache.sections (position section) (built sha256 section leaves)
      → IsBuilt next
  unfolding tree_of
  set_tree-IsBuilt cache next section leaves h e =
      let tree = built sha256 section leaves in
      let place = position section in
      record {
        size = ap length e ∙ length-set cache.sections place tree ∙ h.size;
        tree = λ other. elim (ℕ_discrete place (position other)) [
          | yes same ↦
              let is = position_inj section other same in
              leaves_of_built other (tree_of next other) leaves (
                ap (λ (ts : List SectionTree). get_or ts (position other) no_tree) e
                ∙ ap (λ i. get_or (set cache.sections place tree) i no_tree) (sym same)
                ∙ get_or-set_self cache.sections place tree no_tree
                    (omega (arith, position_lt section, h.size))
                ∙ ap (λ x. built sha256 x leaves) is)
          | no differ ↦ leaves_of_built other (tree_of next other) (tree_of cache other).leaves (
              ap (λ (ts : List SectionTree). get_or ts (position other) no_tree) e
              ∙ get_or-set_ne cache.sections place (position other) tree no_tree differ
              ∙ h.tree other)
        ];
      }

  start-IsPatching :
      (section : Section) (tree : SectionTree) (leaves : Leaves)
      → tree ≡ built sha256 section leaves
      → IsPatching leaves
          (record { leaves = tree.leaves; level = first_level tree.levels; dirty = []; hashed = 0 })
  unfolding built
  start-IsPatching section tree leaves e =
      let marks : IsMarked [] (hashes leaves) (hashes leaves) = record {
        grown = omega arith;
        same = λ i lt off. (lt, refl);
      } in
      let first = ap first_level (build_levels_lem sha256 (length leaves) (hashes leaves)) in
      subst
        (λ (t : SectionTree).
          IsPatching leaves
            (record { leaves = t.leaves; level = first_level t.levels; dirty = []; hashed = 0 }))
        (sym e) (record { level = first; marks = marks })

  refold_patched :
      (section : Section) (tree : SectionTree) (old : Leaves) (w : Patching)
      → tree ≡ built sha256 section old
      → IsPatching old w
      → refold sha256 section w.dirty
          (record tree { leaves = w.leaves; levels = w.level ∷ later_levels tree.levels })
        ≡ built sha256 section w.leaves
  refold_patched section tree old w e p =
      subst
        (λ (t : SectionTree).
          refold sha256 section w.dirty
            (record t { leaves = w.leaves; levels = w.level ∷ later_levels t.levels })
          ≡ built sha256 section w.leaves)
        (sym e)
        (ap
            (λ (level : List Bytes).
              refold sha256 section w.dirty (record (built sha256 section old) {
                leaves = w.leaves;
                levels = level ∷ later_levels (built sha256 section old).levels;
              }))
            p.level
          ∙ refold-built sha256 section w.dirty old w.leaves p.marks)

module _ (sha256 : Bytes → Bytes) {M C P Params : Type 0} (codec : Codec M C P Params) where
  rebuild-IsBuilt :
      (s : State M C P Params) (section : Section) (cache next : RootCache)
      → IsBuilt sha256 cache
      → rebuild sha256 codec s section cache ≡ ok next
      → IsBuilt sha256 next
  unfolding rebuild
  rebuild-IsBuilt s section cache next h e =
      let (leaves, _, is) = and_then_ok (section_leaves sha256 codec s section) _ next e in
      set_tree-IsBuilt sha256 cache next section leaves h
        (sym (ap (λ (c : RootCache). c.sections) (ok_inj is)))

  -- Where every tree of the cache is the one built from its leaves, a patch that is taken in place
  -- keeps that.
  pub patch-IsBuilt :
      (s : State M C P Params) (section : Section) (ks : Map Bytes Unit) (cache next : RootCache)
      → IsBuilt sha256 cache
      → patch sha256 codec s section ks cache ≡ ok (some next)
      → IsBuilt sha256 next
  unfolding patch
  patch-IsBuilt s section ks cache next h e =
      let tree = tree_of cache section in
      let start : Patching = record {
        leaves = tree.leaves;
        level = first_level tree.levels;
        dirty = [];
        hashed = 0;
      } in
      let (done, first, rest) =
        and_then_ok (patch_keys sha256 codec s section ks start) _ (some next) e in
      let (w, is, end) = next_ok done (λ w. ok (some (patched sha256 section cache w))) next rest in
      let patching =
        patch_keys-IsPatching sha256 codec s section ks tree.leaves start w
          (start-IsPatching sha256 section tree tree.leaves (h.tree section)) (first ∙ ap ok is) in
      set_tree-IsBuilt sha256 cache next section w.leaves h (
        sym (ap (λ (c : RootCache). c.sections) (some_inj (ok_inj end)))
        ∙ ap (set cache.sections (position section))
            (refold_patched sha256 section tree tree.leaves w (h.tree section) patching))

  done-IsBuilt :
      (s : State M C P Params) (section : Section) (ks : Map Bytes Unit) (cache next : RootCache)
      (done : Option RootCache)
      → IsBuilt sha256 cache
      → patch sha256 codec s section ks cache ≡ ok done
      → (elim done [
        | some next ↦ ok next
        | none ↦
            rebuild sha256 codec s section
              (record cache { structural_rebuilds = cache.structural_rebuilds + 1 })
      ])
        ≡ ok next
      → IsBuilt sha256 next
  unfolding tree_of
  done-IsBuilt s section ks cache next none h e r =
      rebuild-IsBuilt s section
        (record cache { structural_rebuilds = cache.structural_rebuilds + 1 }) next
        (record { size = h.size; tree = h.tree }) r
  done-IsBuilt s section ks cache next (some done) h e r =
      subst (IsBuilt sha256) (ok_inj r) (patch-IsBuilt s section ks cache done h e)

  apply_patch-IsBuilt :
      (s : State M C P Params) (section : Section) (p : Patch) (cache next : RootCache)
      → IsBuilt sha256 cache
      → apply_patch sha256 codec s section p cache ≡ ok next
      → IsBuilt sha256 next
  unfolding apply_patch
  apply_patch-IsBuilt s section clean cache next h e = subst (IsBuilt sha256) (ok_inj e) h
  apply_patch-IsBuilt s section all cache next h e = rebuild-IsBuilt s section cache next h e
  apply_patch-IsBuilt s section (keys ks) cache next h e =
      let (done, first, rest) = and_then_ok (patch sha256 codec s section ks cache) _ next e in
      done-IsBuilt s section ks cache next done h first rest

  refresh_section-IsBuilt :
      (s : State M C P Params) (section : Section) (p : Patch) (cache next : RootCache)
      → IsBuilt sha256 cache
      → refresh_section sha256 codec s section p cache ≡ ok next
      → IsBuilt sha256 next
  unfolding refresh_section
  refresh_section-IsBuilt s validators p cache next h e =
      rebuild-IsBuilt s validators cache next h e
  refresh_section-IsBuilt s ledger p cache next h e = rebuild-IsBuilt s ledger cache next h e
  refresh_section-IsBuilt s members p cache next h e =
      apply_patch-IsBuilt s members p cache next h e
  refresh_section-IsBuilt s contracts p cache next h e =
      apply_patch-IsBuilt s contracts p cache next h e
  refresh_section-IsBuilt s proposals p cache next h e =
      apply_patch-IsBuilt s proposals p cache next h e
  refresh_section-IsBuilt s stakes p cache next h e = apply_patch-IsBuilt s stakes p cache next h e
  refresh_section-IsBuilt s replay p cache next h e = apply_patch-IsBuilt s replay p cache next h e

  pub refresh_each-IsBuilt :
      (s : State M C P Params) (each : List Section) (ps : List Patch) (cache next : RootCache)
      → IsBuilt sha256 cache
      → refresh_each sha256 codec s each ps cache ≡ ok next
      → IsBuilt sha256 next
  unfolding refresh_each
  refresh_each-IsBuilt s [] ps cache next h e = subst (IsBuilt sha256) (ok_inj e) h
  refresh_each-IsBuilt s (section ∷ rest) [] cache next h e = subst (IsBuilt sha256) (ok_inj e) h
  refresh_each-IsBuilt s (section ∷ rest) (p ∷ ps) cache next h e =
      let (one, first, later) =
        and_then_ok (refresh_section sha256 codec s section p cache)
          (refresh_each sha256 codec s rest ps) next e in
      refresh_each-IsBuilt s rest ps one next
        (refresh_section-IsBuilt s section p cache one h first) later
