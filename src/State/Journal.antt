-- ===== src/State/Journal.antt =====
-- `Journal` of crates/state/src/journal.rs: an ordered map that keeps the keys written since it was
-- last drained. `BTreeSet<K>` is a map to nothing.
pub mod Record
pub mod Changes
pub mod Runs
use edet.Base.{
  ℕ, Bool, true, false, Option, none, some, List, [], ◌∷◌, ltb, if◌then◌else◌, length, ◌^◌,
}
use edet.Map.{Map, get, insert, remove, update, retain}
use edet.Map.Keys.{Ordered}

-- `JOURNAL_KEYS_CAP`, `1 << 16`
abbrev pub journal_keys_cap : ℕ
journal_keys_cap = 2 ^ 16

pub data Dirty (K : Type 0) : Type 0 where
  clean : Dirty K
  keys : Map K Unit → Dirty K
  all : Dirty K

pub record Journal (K V : Type 0) : Type 0 where
  pub rows : Map K V
  pub dirty : Dirty K

-- `is_clean`
unfoldable pub is_clean : {K : Type 0} → Dirty K → Bool
is_clean clean = true
is_clean (keys _) = false
is_clean all = false

-- `impl From<BTreeMap>`, `FromIterator` and the deserializer's reading: no history is known.
unfoldable pub of_map : {K V : Type 0} → Map K V → Journal K V
of_map m = record { rows = m; dirty = all }

-- `Default`
unfoldable pub fresh : {K V : Type 0} → Journal K V
fresh = record { rows = []; dirty = clean }

module _ {K : Type 0} ⦃o : Ordered K⦄ where
  -- The record after one more key: it gives up single keys above the cap.
  unfoldable pub mark_key : K → Dirty K → Dirty K
  mark_key k all = all
  mark_key k clean = keys ((k, tt) ∷ [])
  mark_key k (keys ks) =
      let more = insert k tt ks in if ltb journal_keys_cap (length more) then all else keys more

  -- What the record says of one key.
  unfoldable pub reports : Dirty K → K → Bool
  reports clean k = false
  reports all k = true
  reports (keys ks) k = elim (get k ks) [ none ↦ false | some _ ↦ true ]

module _ {K V : Type 0} ⦃o : Ordered K⦄ where
  -- `mark`, and `touch`, which only calls it.
  unfoldable pub mark : K → Journal K V → Journal K V
  unfolding mark_key
  mark k j = record j { dirty = mark_key k j.dirty }

  unfoldable pub touch : K → Journal K V → Journal K V
  unfolding mark
  touch k j = mark k j

  -- `insert`
  unfoldable pub put : K → V → Journal K V → Journal K V
  unfolding mark
  put k v j = let j' = mark k j in record j' { rows = insert k v j'.rows }

  -- `remove`
  unfoldable pub delete : K → Journal K V → Journal K V
  unfolding mark
  delete k j = let j' = mark k j in record j' { rows = remove k j'.rows }

  -- `get_mut`, with what the caller writes through the reference.
  unfoldable pub get_mut : K → (V → V) → Journal K V → Journal K V
  unfolding mark
  get_mut k f j = let j' = mark k j in record j' { rows = update k f j'.rows }

  -- `entry`, with what the caller makes of the entry: it may fill it, change it or take it out.
  unfoldable pub entry : K → (Option V → Option V) → Journal K V → Journal K V
  unfolding mark
  entry k f j =
      let j' = mark k j in
      record j' {
        rows = elim (f (get k j'.rows)) [ none ↦ remove k j'.rows | some v ↦ insert k v j'.rows ];
      }

  -- `raw_mut`, with what the caller writes: nothing is marked.
  unfoldable pub raw_mut : (Map K V → Map K V) → Journal K V → Journal K V
  raw_mut g j = record j { rows = g j.rows }

  -- `deref_mut`, `values_mut` and `iter_mut`, with what the caller writes: everything is marked.
  unfoldable pub deref_mut : (Map K V → Map K V) → Journal K V → Journal K V
  deref_mut g j = record { rows = g j.rows; dirty = all }

  unfoldable pub keep : (K → V → Bool) → Journal K V → Journal K V
  keep p j = record { rows = retain p j.rows; dirty = all }

  unfoldable pub clear : Journal K V → Journal K V
  clear j = record { rows = []; dirty = all }

  -- `take_dirty`: the record, and the drained journal.
  unfoldable pub take_dirty : Journal K V → Dirty K × Journal K V
  take_dirty j = (j.dirty, record j { dirty = clean })

  -- What the three callers of `raw_mut` do: a write, and a touch for each of the keys.
  unfoldable pub touch_each : List K → Journal K V → Journal K V
  unfolding touch
  touch_each [] j = j
  touch_each (k ∷ ks) j = touch_each ks (touch k j)

-- The mutable paths to the map, each with what the caller does with it. A raw write comes with the
-- keys that its caller touches.
pub data Op (K V : Type 0) : Type 0 where
  touch_of : K → Op K V
  put_of : K → V → Op K V
  delete_of : K → Op K V
  get_mut_of : K → (V → V) → Op K V
  entry_of : K → (Option V → Option V) → Op K V
  raw_of : (Map K V → Map K V) → List K → Op K V
  deref_of : (Map K V → Map K V) → Op K V
  keep_of : (K → V → Bool) → Op K V
  clear_of : Op K V

module _ {K V : Type 0} ⦃o : Ordered K⦄ where
  unfoldable pub apply_op : Op K V → Journal K V → Journal K V
  unfolding touch put delete get_mut entry raw_mut touch_each deref_mut keep clear
  apply_op (touch_of k) j = touch k j
  apply_op (put_of k v) j = put k v j
  apply_op (delete_of k) j = delete k j
  apply_op (get_mut_of k f) j = get_mut k f j
  apply_op (entry_of k f) j = entry k f j
  apply_op (raw_of g ks) j = touch_each ks (raw_mut g j)
  apply_op (deref_of g) j = deref_mut g j
  apply_op (keep_of p) j = keep p j
  apply_op clear_of j = clear j

  unfoldable pub run : List (Op K V) → Journal K V → Journal K V
  unfolding apply_op
  run [] j = j
  run (op ∷ ops) j = run ops (apply_op op j)
