-- ===== src/State/Root/Cache.antt =====
-- `RootCache` of crates/state/src/root.rs. An error ends a run: what a call that fails leaves in the
-- cache is not kept.
use edet.Base.{
  ℕ, ◌+◌, Ordering, ◌⊎◌, inl, inr, Bool, true, false, ◌||◌, Option, none, List, [], ◌∷◌,
  if◌then◌else◌, get_or, replicate,
}
use edet.Map.{Map, insert}
use edet.Map.Keys.{nat_ordered, pair_ordered}
use edet.Map.Strings.{bytes_ordered, cmp_bytes}
use edet.Bytes.{Bytes}
use edet.State.Journal.{Dirty, take_dirty}
use edet.State.Root.{Section, all_sections, position}
use edet.State.Root.Levels.{SectionTree}
use edet.State.Root.Leaves.{State, Leaves, id_key}

pub data Patch : Type 0 where
  clean : Patch
  keys : Map Bytes Unit → Patch
  all : Patch

pub record RootCache : Type 0 where
  pub marker : Option ℕ
  pub sections : List SectionTree
  pub root : Bytes
  pub ledger_value : Bytes
  pub leaves_hashed : ℕ
  pub full_builds : ℕ
  pub structural_rebuilds : ℕ

-- `SectionTree::default()`
abbrev pub no_tree : SectionTree
no_tree = record { leaves = []; levels = []; root = replicate 32 0 }

-- `RootCache::default()`
unfoldable pub fresh_cache : RootCache
fresh_cache = record {
  marker = none;
  sections = replicate 7 no_tree;
  root = replicate 32 0;
  ledger_value = [];
  leaves_hashed = 0;
  full_builds = 0;
  structural_rebuilds = 0;
}

unfoldable pub tree_of : RootCache → Section → SectionTree
unfolding position
tree_of cache section = get_or cache.sections (position section) no_tree

abbrev pub tree_roots : RootCache → List Section → List Bytes
tree_roots cache [] = []
tree_roots cache (section ∷ rest) = (tree_of cache section).root ∷ tree_roots cache rest

-- `RootCache::section_roots`
unfoldable pub cached_roots : RootCache → List Bytes
unfolding tree_of
cached_roots cache = tree_roots cache all_sections

-- `binary_search_by` over leaves in key order: the place of the key, or where it would stand.
abbrev pub search_key : Bytes → Leaves → ℕ → ℕ ⊎ ℕ
search_key key [] index = inr index
search_key key ((k, _) ∷ leaves) index = elim (cmp_bytes k key) [
  | Ordering.lt ↦ search_key key leaves (index + 1)
  | Ordering.eq ↦ inl index
  | Ordering.gt ↦ inr index
]

-- `keys.iter().map(|id| id_key(*id).to_vec()).collect()`
abbrev pub key_set : Map ℕ Unit → Map Bytes Unit → Map Bytes Unit
key_set [] found = found
key_set ((id, _) ∷ ids) found = key_set ids (insert (id_key id) tt found)

abbrev pub creditor_set : Map (ℕ × ℕ) Unit → Map Bytes Unit → Map Bytes Unit
creditor_set [] found = found
creditor_set (((c, _), _) ∷ ids) found = creditor_set ids (insert (id_key c) tt found)

-- The closure `ids` of `take_patches`.
abbrev pub ids_patch : Dirty ℕ → Patch
ids_patch Dirty.clean = Patch.clean
ids_patch (Dirty.keys ids) = Patch.keys (key_set ids [])
ids_patch Dirty.all = Patch.all

abbrev pub is_all : {K : Type 0} → Dirty K → Bool
is_all Dirty.clean = false
is_all (Dirty.keys _) = false
is_all Dirty.all = true

abbrev pub add_ids : Dirty ℕ → Map Bytes Unit → Map Bytes Unit
add_ids Dirty.clean found = found
add_ids (Dirty.keys ids) found = key_set ids found
add_ids Dirty.all found = found

abbrev pub add_creditors : Dirty (ℕ × ℕ) → Map Bytes Unit → Map Bytes Unit
add_creditors Dirty.clean found = found
add_creditors (Dirty.keys ids) found = creditor_set ids found
add_creditors Dirty.all found = found

abbrev pub keys_patch : Map Bytes Unit → Patch
keys_patch [] = Patch.clean
keys_patch (k ∷ ks) = Patch.keys (k ∷ ks)

-- The patch of the stakes, which four journals feed.
unfoldable pub stakes_patch : Dirty ℕ → Dirty (ℕ × ℕ) → Dirty (ℕ × ℕ) → Dirty (ℕ × ℕ) → Patch
stakes_patch ms edges reserved seat_reserved =
    let found =
      add_creditors seat_reserved (add_creditors reserved (add_creditors edges (add_ids ms []))) in
    if is_all ms || is_all edges || is_all reserved || is_all seat_reserved
    then Patch.all
    else keys_patch found

module _ {M C P Params : Type 0} where
  -- `take_patches`: the patches in the sections' order.
  unfoldable pub take_patches : State M C P Params → List Patch
  unfolding stakes_patch id_key
  take_patches s =
      ids_patch s.members.dirty
      ∷ ids_patch s.contracts.dirty
      ∷ ids_patch s.proposals.dirty
      ∷ Patch.clean
      ∷ stakes_patch s.members.dirty s.edges.dirty s.reserved.dirty s.seat_reserved.dirty
      ∷ ids_patch s.applied_by_expiry.dirty
      ∷ Patch.clean
      ∷ []

  -- What `take_patches` leaves of the state: its journals are drained.
  unfoldable pub drained : State M C P Params → State M C P Params
  unfolding take_dirty
  drained s = record s {
    members = (take_dirty s.members).1;
    contracts = (take_dirty s.contracts).1;
    proposals = (take_dirty s.proposals).1;
    edges = (take_dirty s.edges).1;
    reserved = (take_dirty s.reserved).1;
    seat_reserved = (take_dirty s.seat_reserved).1;
    applied_by_expiry = (take_dirty s.applied_by_expiry).1;
  }

  -- `discard`
  unfoldable pub discard : RootCache → State M C P Params → RootCache × State M C P Params
  unfolding drained
  discard cache s = (record cache { marker = none }, drained s)
