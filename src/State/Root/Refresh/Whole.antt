-- ===== src/State/Root/Refresh/Whole.antt =====
-- `full_build` and `refresh` of crates/state/src/root.rs, against the definition's own folds.
use edet.Base.{
  ℕ, zero, suc, ◌<◌, ◌≡◌, refl, sym, ap, ◌∙◌, inl, inr, Bool, none, List, [], ◌∷◌, arith,
  if◌then◌else◌, Bool-cases, length, get_or, ap₂, subst,
}
use edet.Bytes.{Bytes}
use edet.State.Root.{
  Section, members, contracts, proposals, validators, stakes, replay, ledger, all_sections,
  position,
}
use edet.State.Root.Tree.{merkle}
use edet.State.Root.Levels.{SectionTree, built}
use edet.State.Root.Levels.Built.{root-built}
use edet.State.Root.Leaves.{
  Leaves, Codec, State, ok, and_then, salt_marker, Answered, check_replay_window, err,
}
use edet.State.Root.Sections.{
  Sections, get_section, roots_of, section_roots, state_root, ledger_leaf,
}
use edet.State.Root.Cache.{
  Patch, RootCache, tree_of, tree_roots, no_tree, cached_roots, drained, take_patches,
}
use edet.State.Root.Prove.Parts.{sections-length}
use edet.State.Root.Refresh.Built.{leaves_of_built, position_lt, IsBuilt, refresh_each-IsBuilt}
use edet.State.Root.Refresh.{
  build_each, full_build, sections, refresh, is_marker, whole, end_refresh, refresh_warm,
  refresh_each,
}
use edet.State.Root.Prove.Found.{and_then_ok, ok_inj}

-- The leaves that a cache holds.
abbrev leaves_each : List SectionTree → List Leaves
leaves_each [] = []
leaves_each (tree ∷ trees) = tree.leaves ∷ leaves_each trees

abbrev pub held : RootCache → Sections
held cache = record { leaves = leaves_each cache.sections; ledger_value = cache.ledger_value }

held_leaves :
    (trees : List SectionTree) (i : ℕ)
    → get_or (leaves_each trees) i [] ≡ (get_or trees i no_tree).leaves
held_leaves [] i = ground arith
held_leaves (tree ∷ trees) zero = refl
held_leaves (tree ∷ trees) (suc i) = held_leaves trees i

module _ (sha256 : Bytes → Bytes) where
  tree_roots_lem :
      (cache : RootCache) (done : Sections) (each : List Section)
      → ((section : Section)
          → tree_of cache section ≡ built sha256 section (get_section done section))
      → tree_roots cache each ≡ roots_of sha256 done each
  tree_roots_lem cache done [] h = refl
  tree_roots_lem cache done (section ∷ rest) h =
      ap₂ (λ (r : Bytes) (rs : List Bytes). r ∷ rs)
        (ap (λ (t : SectionTree). t.root) (h section)
          ∙ root-built sha256 section (get_section done section))
        (tree_roots_lem cache done rest h)

  pub cached_roots_lem :
      (cache : RootCache) (done : Sections)
      → ((section : Section)
          → tree_of cache section ≡ built sha256 section (get_section done section))
      → cached_roots cache ≡ section_roots sha256 done
  unfolding cached_roots section_roots
  cached_roots_lem cache done h = tree_roots_lem cache done all_sections h

  held_section :
      (cache : RootCache) (section : Section)
      → get_section (held cache) section ≡ (tree_of cache section).leaves
  unfolding tree_of get_section
  held_section cache section = held_leaves cache.sections (position section)

  cached_roots-held :
      (cache : RootCache)
      → IsBuilt sha256 cache
      → cached_roots cache ≡ section_roots sha256 (held cache)
  cached_roots-held cache h =
      cached_roots_lem cache (held cache)
        (λ section. h.tree section ∙ ap (built sha256 section) (sym (held_section cache section)))

  get_or-build_each :
      (each : List Section) (leaves : List Leaves) (i : ℕ)
      → length each ≡ length leaves
      → i < length each
      → get_or (build_each sha256 each leaves) i no_tree
        ≡ built sha256 (get_or each i members) (get_or leaves i [])
  get_or-build_each [] leaves i e h = elim h [ ]
  get_or-build_each (section ∷ each) [] i e h = absurd (omega (arith, e))
  get_or-build_each (section ∷ each) (entries ∷ leaves) zero e h = refl
  get_or-build_each (section ∷ each) (entries ∷ leaves) (suc i) e h =
      get_or-build_each each leaves i (omega (arith, e)) (omega (arith, h))

  length-build_each :
      (each : List Section) (leaves : List Leaves)
      → length each ≡ length leaves
      → length (build_each sha256 each leaves) ≡ length leaves
  length-build_each [] leaves e = e
  length-build_each (section ∷ each) [] e = refl
  length-build_each (section ∷ each) (entries ∷ leaves) e =
      ap suc (length-build_each each leaves (omega (arith, e)))

  section_in_place : (section : Section) → get_or all_sections (position section) members ≡ section
  unfolding position
  section_in_place members = refl
  section_in_place contracts = refl
  section_in_place proposals = refl
  section_in_place validators = refl
  section_in_place stakes = refl
  section_in_place replay = refl
  section_in_place ledger = refl

  pub tree_of-build_each :
      (cache : RootCache) (leaves : List Leaves)
      → length leaves ≡ 7
      → cache.sections ≡ build_each sha256 all_sections leaves
      → (section : Section)
      → tree_of cache section ≡ built sha256 section (get_or leaves (position section) [])
  unfolding tree_of
  tree_of-build_each cache leaves size e section =
      ap (λ (ts : List SectionTree). get_or ts (position section) no_tree) e
      ∙ get_or-build_each all_sections leaves (position section) (sym size) (position_lt section)
      ∙ ap (λ x. built sha256 x (get_or leaves (position section) [])) (section_in_place section)

  build_each-IsBuilt :
      (cache : RootCache) (leaves : List Leaves)
      → length leaves ≡ 7
      → cache.sections ≡ build_each sha256 all_sections leaves
      → IsBuilt sha256 cache
  build_each-IsBuilt cache leaves size e = record {
    size = ap length e ∙ length-build_each all_sections leaves (sym size) ∙ size;
    tree = λ section.
        leaves_of_built sha256 section (tree_of cache section) (get_or leaves (position section) [])
          (tree_of-build_each cache leaves size e section);
  }

module _ (sha256 : Bytes → Bytes) {M C P Params : Type 0} (codec : Codec M C P Params) where
  pub whole-IsBuilt :
      (s : State M C P Params) (cache : RootCache) (done : Sections)
      → length done.leaves ≡ 7
      → IsBuilt sha256 (whole sha256 codec s cache done).0
  unfolding whole
  whole-IsBuilt s cache done size =
      build_each-IsBuilt sha256 (whole sha256 codec s cache done).0 done.leaves size refl

  whole_root :
      (s : State M C P Params) (cache : RootCache) (done : Sections)
      → length done.leaves ≡ 7
      → (whole sha256 codec s cache done).1 ≡ (merkle sha256 (section_roots sha256 done) none).0
  unfolding whole get_section cached_roots tree_of
  whole_root s cache done size =
      ap (λ (rs : List Bytes). (merkle sha256 rs none).0)
        (cached_roots_lem sha256 (whole sha256 codec s cache done).0 done
          (tree_of-build_each sha256 (whole sha256 codec s cache done).0 done.leaves size refl))

  whole_of :
      (s : State M C P Params) (cache : RootCache) (r : Answered Sections)
      → sections sha256 codec s ≡ r
      → and_then (and_then r (λ done. ok (whole sha256 codec s cache done))) (λ done. ok done.1)
        ≡ and_then r (λ done. ok (merkle sha256 (section_roots sha256 done) none).0)
  whole_of s cache (err x) e = refl
  whole_of s cache (ok done) e =
      ap ok (whole_root s cache done (sections-length sha256 codec s done e))

  -- A whole build of the cache succeeds exactly where the definition does, with the state root that
  -- it defines, and fails with its error.
  pub full_build-state_root :
      (s : State M C P Params) (cache : RootCache)
      → and_then (full_build sha256 codec s cache) (λ done. ok done.1) ≡ state_root sha256 codec s
  unfolding full_build state_root
  full_build-state_root s cache = whole_of s cache (sections sha256 codec s) refl

  IsRefreshed : RootCache → Bytes → Type 0
  IsRefreshed next root =
      IsBuilt sha256 next × (root ≡ (merkle sha256 (section_roots sha256 (held next)) none).0)

  refreshed_lem :
      (next : RootCache) (root : Bytes)
      → IsBuilt sha256 next
      → root ≡ (merkle sha256 (cached_roots next) none).0
      → IsRefreshed next root
  unfolding IsRefreshed
  refreshed_lem next root h e =
      (h, e ∙ ap (λ (rs : List Bytes). (merkle sha256 rs none).0) (cached_roots-held sha256 next h))

  end_refresh-IsRefreshed :
      (s s' : State M C P Params) (mid next : RootCache) (root bytes : Bytes)
      → IsBuilt sha256 mid
      → end_refresh sha256 codec s mid bytes ≡ (s', next, root)
      → IsRefreshed next root
  unfolding end_refresh cached_roots tree_of
  end_refresh-IsRefreshed s s' mid next root bytes h e =
      let end = end_refresh sha256 codec s mid bytes in
      subst (λ (x : State M C P Params × RootCache × Bytes). IsRefreshed x.1 x.2) e
        (refreshed_lem end.1 end.2 (record { size = h.size; tree = h.tree }) refl)

  whole-IsRefreshed :
      (s : State M C P Params) (cache next : RootCache) (root : Bytes) (done : Sections)
      → length done.leaves ≡ 7
      → whole sha256 codec s cache done ≡ (next, root)
      → IsRefreshed next root
  unfolding whole cached_roots tree_of
  whole-IsRefreshed s cache next root done size e =
      let end = whole sha256 codec s cache done in
      subst (λ (x : RootCache × Bytes). IsRefreshed x.0 x.1) e
        (refreshed_lem end.0 end.1 (whole-IsBuilt s cache done size) refl)

  refresh_warm-IsRefreshed :
      (s s' : State M C P Params) (ps : List Patch) (cache next : RootCache) (root : Bytes)
      → IsBuilt sha256 cache
      → refresh_warm sha256 codec s ps cache ≡ ok (s', next, root)
      → IsRefreshed next root
  unfolding refresh_warm
  refresh_warm-IsRefreshed s s' ps cache next root h e =
      let (_, _, e1) = and_then_ok (check_replay_window s) _ (s', next, root) e in
      let (mid, each, e2) =
        and_then_ok (refresh_each sha256 codec s all_sections ps cache) _ (s', next, root) e1 in
      let (leaf, _, e3) = and_then_ok (ledger_leaf sha256 codec s) _ (s', next, root) e2 in
      end_refresh-IsRefreshed s s' mid next root leaf.0
        (refresh_each-IsBuilt sha256 codec s all_sections ps cache mid h each) (ok_inj e3)

  full_build-IsRefreshed :
      (s : State M C P Params) (cache next : RootCache) (root : Bytes)
      → full_build sha256 codec s cache ≡ ok (next, root)
      → IsRefreshed next root
  unfolding full_build
  full_build-IsRefreshed s cache next root e =
      let (done, first, rest) = and_then_ok (sections sha256 codec s) _ (next, root) e in
      whole-IsRefreshed s cache next root done (sections-length sha256 codec s done first)
        (ok_inj rest)

  -- Where every tree of the cache is the one built from its leaves, a refresh that succeeds keeps that, and
  -- its root is the one folded from the leaves that the cache then holds.
  pub refresh-IsBuilt :
      (s s' : State M C P Params) (cache next : RootCache) (root : Bytes)
      → IsBuilt sha256 cache
      → refresh sha256 codec s cache ≡ ok (s', next, root)
      → IsBuilt sha256 next × (root ≡ (merkle sha256 (section_roots sha256 (held next)) none).0)
  unfolding refresh IsRefreshed
  refresh-IsBuilt s s' cache next root h e =
      elim (Bool-cases (is_marker cache.marker (salt_marker (drained s)))) [
        | inl warm ↦ refresh_warm-IsRefreshed (drained s) s' (take_patches s) cache next root h (
            ap
              (λ (b : Bool).
                if b
                then refresh_warm sha256 codec (drained s) (take_patches s) cache
                else and_then (full_build sha256 codec (drained s) cache)
                    (λ done. ok (drained s, done.0, done.1)))
              (sym warm)
            ∙ e)
        | inr cold ↦
            let (done, first, rest) =
              and_then_ok (full_build sha256 codec (drained s) cache) _ (s', next, root)
                (ap
                    (λ (b : Bool).
                      if b
                      then refresh_warm sha256 codec (drained s) (take_patches s) cache
                      else and_then (full_build sha256 codec (drained s) cache)
                          (λ done. ok (drained s, done.0, done.1)))
                    (sym cold)
                  ∙ e) in
            let same = ok_inj rest in
            subst (λ (x : State M C P Params × RootCache × Bytes). IsRefreshed x.1 x.2) same
              (full_build-IsRefreshed (drained s) cache done.0 done.1 first)
      ]
