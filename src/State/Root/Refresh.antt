-- ===== src/State/Root/Refresh.antt =====
-- `RootCache::refresh` of crates/state/src/root.rs, with the patches and rebuilds of its sections.
pub mod Patched
pub mod Built
pub mod Whole
pub mod Proofs
use edet.Base.{
  ℕ, zero, suc, ◌+◌, inl, inr, Bool, false, Option, none, some, List, [], ◌∷◌, ◌++◌, ◌==◌,
  if◌then◌else◌, length, set,
}
use edet.Map.{Map, insert}
use edet.Map.Keys.{nat_ordered, pair_ordered}
use edet.Map.Strings.{bytes_ordered}
use edet.Bytes.{Bytes}
use edet.State.Root.{
  Section, members, contracts, proposals, validators, stakes, replay, ledger, all_sections,
  position, leaf_hash, leaf_salt, value_digest,
}
use edet.State.Root.Tree.{merkle}
use edet.State.Root.Levels.{SectionTree, built, refold, first_level, later_levels, path}
use edet.State.Root.Proof.{InclusionProof}
use edet.State.Root.Leaves.{
  State, Codec, Leaves, Answered, RootError, ok, err, and_then, salt_marker, check_replay_window,
}
use edet.State.Root.Sections.{Sections, sections, section_leaves, ledger_leaf}
use edet.State.Root.Prove.{record_value}
use edet.State.Root.Cache.{
  drained, drained, Patch, clean, keys, all, RootCache, tree_of, search_key, take_patches,
  cached_roots,
}

-- A patch in progress: the tree, the marked places and how many leaves it hashed.
pub record Patching : Type 0 where
  pub leaves : Leaves
  pub level : List Bytes
  pub dirty : Map ℕ Unit
  pub hashed : ℕ

abbrev pub set_hash : ℕ → Bytes → Leaves → Leaves
set_hash i h [] = []
set_hash zero h ((k, _) ∷ leaves) = (k, h) ∷ leaves
set_hash (suc i) h (leaf ∷ leaves) = leaf ∷ set_hash i h leaves

-- `leaves[index].1 = hash; levels[0][index] = hash`
abbrev pub write_leaf : ℕ → Bytes → Patching → Patching
write_leaf index hash w = record {
  leaves = set_hash index hash w.leaves;
  level = set w.level index hash;
  dirty = insert index tt w.dirty;
  hashed = w.hashed + 1;
}

-- `leaves.push((key, hash)); levels[0].push(hash)`
abbrev pub push_leaf : Bytes → ℕ → Bytes → Patching → Patching
push_leaf key index hash w = record {
  leaves = w.leaves ++ (key, hash) ∷ [];
  level = w.level ++ hash ∷ [];
  dirty = insert index tt w.dirty;
  hashed = w.hashed + 1;
}

-- The arms of `patch` for one key: `none` where the section moved.
unfoldable pub patch_key : (ℕ → Bytes → Bytes) → Bytes → Option Bytes → Patching → Option Patching
patch_key hash key value w = elim value [
  | none ↦ elim (search_key key w.leaves 0) [ inl _ ↦ none | inr _ ↦ some w ]
  | some bytes ↦ elim (search_key key w.leaves 0) [
    | inl index ↦ some (write_leaf index (hash index bytes) w)
    | inr index ↦
        if index == length w.leaves then some (push_leaf key index (hash index bytes) w) else none
  ]
]

abbrev pub count_leaves : List Leaves → ℕ
count_leaves [] = 0
count_leaves (leaves ∷ later) = length leaves + count_leaves later

abbrev pub is_marker : Option ℕ → ℕ → Bool
is_marker none m = false
is_marker (some n) m = n == m

module _ (sha256 : Bytes → Bytes) where
  -- The tree that `patch` leaves, and its count.
  abbrev pub patched : Section → RootCache → Patching → RootCache
  patched section cache w =
      let tree = tree_of cache section in
      record cache {
        leaves_hashed = cache.leaves_hashed + w.hashed;
        sections = set cache.sections (position section) (
            refold sha256 section w.dirty
              (record tree { leaves = w.leaves; levels = w.level ∷ later_levels tree.levels }));
      }

  -- The loop of `full_build`.
  abbrev pub build_each : List Section → List Leaves → List SectionTree
  build_each [] leaves = []
  build_each (section ∷ rest) [] = []
  build_each (section ∷ rest) (leaves ∷ later) = built sha256 section leaves ∷ build_each rest later

module _ (sha256 : Bytes → Bytes) {M C P Params : Type 0} (codec : Codec M C P Params) where
  abbrev pub key_hash : State M C P Params → Section → Bytes → ℕ → Bytes → Bytes
  key_hash s section key index bytes =
      let salt =
        leaf_salt sha256 s.root_salt (salt_marker s) section key (value_digest sha256 bytes) in
      leaf_hash sha256 salt section index key bytes

  -- The loop of `patch` over the keys.
  unfoldable pub patch_keys :
      State M C P Params → Section → Map Bytes Unit → Patching → Answered (Option Patching)
  unfolding patch_key record_value
  patch_keys s section [] w = ok (some w)
  patch_keys s section ((key, _) ∷ ks) w = and_then (record_value codec s section key) (λ value.
      elim (patch_key (key_hash s section key) key value w) [
        | none ↦ ok none
        | some next ↦ patch_keys s section ks next
      ])

  -- `rebuild`
  unfoldable pub rebuild : State M C P Params → Section → RootCache → Answered RootCache
  unfolding section_leaves built position
  rebuild s section cache = and_then (section_leaves sha256 codec s section) (λ leaves.
      ok (record cache {
        leaves_hashed = cache.leaves_hashed + length leaves;
        sections = set cache.sections (position section) (built sha256 section leaves);
      }))

  -- `patch`: `none` where it answers `false`.
  unfoldable pub patch :
      State M C P Params → Section → Map Bytes Unit → RootCache → Answered (Option RootCache)
  unfolding patch_keys refold tree_of position
  patch s section ks cache =
      let tree = tree_of cache section in
      let start : Patching = record {
        leaves = tree.leaves;
        level = first_level tree.levels;
        dirty = [];
        hashed = 0;
      } in
      and_then (patch_keys s section ks start)
        (λ done. elim done [ none ↦ ok none | some w ↦ ok (some (patched sha256 section cache w)) ])

  unfoldable pub apply_patch : State M C P Params → Section → Patch → RootCache → Answered RootCache
  unfolding rebuild patch
  apply_patch s section clean cache = ok cache
  apply_patch s section all cache = rebuild s section cache
  apply_patch s section (keys ks) cache = and_then (patch s section ks cache) (λ done. elim done [
    | some next ↦ ok next
    | none ↦
        rebuild s section (record cache { structural_rebuilds = cache.structural_rebuilds + 1 })
  ])

  -- One turn of the loop of `refresh`.
  unfoldable pub refresh_section :
      State M C P Params → Section → Patch → RootCache → Answered RootCache
  unfolding rebuild apply_patch
  refresh_section s validators p cache = rebuild s validators cache
  refresh_section s ledger p cache = rebuild s ledger cache
  refresh_section s members p cache = apply_patch s members p cache
  refresh_section s contracts p cache = apply_patch s contracts p cache
  refresh_section s proposals p cache = apply_patch s proposals p cache
  refresh_section s stakes p cache = apply_patch s stakes p cache
  refresh_section s replay p cache = apply_patch s replay p cache

  unfoldable pub refresh_each :
      State M C P Params → List Section → List Patch → RootCache → Answered RootCache
  unfolding refresh_section
  refresh_each s [] ps cache = ok cache
  refresh_each s (section ∷ rest) [] cache = ok cache
  refresh_each s (section ∷ rest) (p ∷ ps) cache =
      and_then (refresh_section s section p cache) (refresh_each s rest ps)

  -- What `full_build` makes of the sections.
  unfoldable pub whole : State M C P Params → RootCache → Sections → RootCache × Bytes
  unfolding built cached_roots salt_marker
  whole s cache done =
      let next : RootCache = record {
        marker = some (salt_marker s);
        sections = build_each sha256 all_sections done.leaves;
        root = cache.root;
        ledger_value = done.ledger_value;
        leaves_hashed = cache.leaves_hashed + count_leaves done.leaves;
        full_builds = cache.full_builds + 1;
        structural_rebuilds = cache.structural_rebuilds;
      } in
      let root = (merkle sha256 (cached_roots next) none).0 in (record next { root = root }, root)

  -- `full_build`
  unfoldable pub full_build : State M C P Params → RootCache → Answered (RootCache × Bytes)
  unfolding sections whole
  full_build s cache = and_then (sections sha256 codec s) (λ done. ok (whole s cache done))

  -- The end of `refresh`: the scalar leaf's bytes and the root.
  unfoldable pub end_refresh :
      State M C P Params → RootCache → Bytes → State M C P Params × RootCache × Bytes
  unfolding cached_roots
  end_refresh s next bytes =
      let root = (merkle sha256 (cached_roots next) none).0 in
      (s, record next { ledger_value = bytes; root = root }, root)

  -- `refresh`, where the salts are those of the last build.
  unfoldable pub refresh_warm :
      State M C P Params
      → List Patch
      → RootCache
      → Answered (State M C P Params × RootCache × Bytes)
  unfolding refresh_each check_replay_window ledger_leaf end_refresh
  refresh_warm s patches cache = and_then (check_replay_window s) (λ _.
      and_then (refresh_each s all_sections patches cache)
        (λ next. and_then (ledger_leaf sha256 codec s) (λ leaf. ok (end_refresh s next leaf.0))))

  -- `refresh`: the journals are drained first.
  unfoldable pub refresh :
      State M C P Params → RootCache → Answered (State M C P Params × RootCache × Bytes)
  unfolding full_build refresh_warm take_patches drained salt_marker
  refresh s cache =
      let patches = take_patches s in
      let s' = drained s in
      if is_marker cache.marker (salt_marker s')
      then refresh_warm s' patches cache
      else and_then (full_build s' cache) (λ done. ok (s', done.0, done.1))

  -- The proof of the leaf at `index` off the cache.
  abbrev pub cached_proof :
      State M C P Params → RootCache → Section → Bytes → ℕ → Bytes → InclusionProof
  cached_proof s cache section key index value = record {
    section = section;
    index = index;
    leaf_count = length (tree_of cache section).leaves;
    key = key;
    value = value;
    leaf_salt =
        leaf_salt sha256 s.root_salt (salt_marker s) section key (value_digest sha256 value);
    path = path (tree_of cache section) index;
    section_path = (merkle sha256 (cached_roots cache) (some (position section))).1;
  }

  unfoldable pub cached_value :
      State M C P Params → RootCache → Section → Bytes → Answered (Option Bytes)
  unfolding record_value
  cached_value s cache ledger key = ok (some cache.ledger_value)
  cached_value s cache members key = record_value codec s members key
  cached_value s cache contracts key = record_value codec s contracts key
  cached_value s cache proposals key = record_value codec s proposals key
  cached_value s cache validators key = record_value codec s validators key
  cached_value s cache stakes key = record_value codec s stakes key
  cached_value s cache replay key = record_value codec s replay key

  -- `RootCache::prove`
  unfoldable pub prove_cached :
      State M C P Params → RootCache → Section → Bytes → Answered (Option InclusionProof)
  unfolding cached_value tree_of path cached_roots leaf_salt value_digest salt_marker position
  prove_cached s cache section key = elim cache.marker [
    | none ↦ err RootError.cold
    | some _ ↦ elim (search_key key (tree_of cache section).leaves 0) [
      | inr _ ↦ ok none
      | inl index ↦ and_then (cached_value s cache section key) (λ value. elim value [
        | none ↦ err RootError.no_value
        | some bytes ↦ ok (some (cached_proof s cache section key index bytes))
      ])
    ]
  ]
