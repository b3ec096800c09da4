-- ===== src/View/Pending/Reclaim.antt =====
-- The part of `PendingPool::sign` in crates/view/src/pending.rs that makes room in a full pool.
pub mod Groups
pub mod Room
use edet.Base.{
  ℕ, ◌+◌, Ordering, Bool, true, false, not, ◌&&◌, Option, none, some, List, [], ◌∷◌, ◌++◌, ltb, leb,
  ◌==◌, if◌then◌else◌, or_else, length, compare,
}
use edet.Bytes.{Bytes}
use edet.Map.{Map, get, insert, remove, contains_key}
use edet.Map.Keys.{nat_ordered}
use edet.Map.Strings.{cmp_bytes, bytes_ordered}
use edet.View.Pending.{PendingEntry, max_entries, max_entries_per_initiator_when_full}

-- A digest, and when its entry was made.
abbrev pub Dated : Type 0
Dated = Bytes × ℕ

-- Not after in the order of the key `(Reverse(created), d)`.
unfoldable pub no_later : Dated → Dated → Bool
no_later (d, created) (d', created') = elim (compare created' created) [
  | Ordering.lt ↦ true
  | Ordering.eq ↦ elim (cmp_bytes d d') [ Ordering.gt ↦ false | _ ↦ true ]
  | Ordering.gt ↦ false
]

unfoldable pub place_dated : Dated → List Dated → List Dated
place_dated x [] = x ∷ []
place_dated x (y ∷ ys) =
    let rest = place_dated x ys in if no_later x y then x ∷ y ∷ ys else y ∷ rest

-- `v.sort_by_key(|&(d, created)| (Reverse(created), d))`
unfoldable pub sort_dated : List Dated → List Dated
unfolding place_dated
sort_dated [] = []
sort_dated (x ∷ xs) = place_dated x (sort_dated xs)

-- `v.into_iter().take(1).map(|(d, _)| d)`
abbrev pub first_digest : List Dated → List Bytes
first_digest [] = []
first_digest ((d, _) ∷ rest) = d ∷ []

-- `flat_map` over the initiators above their share.
unfoldable pub first_each : Map ℕ (List Dated) → List Bytes
unfolding sort_dated
first_each [] = []
first_each ((_, v) ∷ groups) =
    let rest = first_each groups in
    if ltb max_entries_per_initiator_when_full (length v)
    then first_digest (sort_dated v) ++ rest
    else rest

-- `for d in hogs { self.entries.remove(&d) }`
unfoldable pub remove_all : {V : Type 0} → List Bytes → Map Bytes V → Map Bytes V
remove_all [] m = m
remove_all (d ∷ ds) m = remove_all ds (remove d m)

-- From `hogs.is_empty()` on: the entries without the hogs, if there are any.
unfoldable pub reclaim : {V : Type 0} → List Bytes → Map Bytes V → Option (Map Bytes V)
unfolding remove_all
reclaim [] m = none
reclaim (d ∷ ds) m = some (remove_all (d ∷ ds) m)

module _ {F : Type 0} where
  -- `self.entries.values().filter(|e| p(e)).count()`
  unfoldable pub count_entries : (PendingEntry F → Bool) → Map Bytes (PendingEntry F) → ℕ
  count_entries p [] = 0
  count_entries p ((_, e) ∷ m) = (if p e then 1 else 0) + count_entries p m

  -- The loop that fills `by_initiator`.
  unfoldable pub by_initiator : Map Bytes (PendingEntry F) → Map ℕ (List Dated) → Map ℕ (List Dated)
  by_initiator [] groups = groups
  by_initiator ((d, e) ∷ m) groups =
      by_initiator m (
        insert e.initiator (or_else (get e.initiator groups) [] ++ (d, e.created_secs) ∷ []) groups)

  unfoldable pub hogs : Map Bytes (PendingEntry F) → List Bytes
  unfolding by_initiator first_each
  hogs entries = first_each (by_initiator entries [])

  -- The entries once there is room for digest `d` on the account of `member`; none if the pool is
  -- full.
  unfoldable pub make_room :
      Bytes → ℕ → Map Bytes (PendingEntry F) → Option (Map Bytes (PendingEntry F))
  unfolding count_entries hogs reclaim
  make_room d member entries =
      let held = count_entries (λ e. e.initiator == member) entries in
      let evicted = hogs entries in
      if leb max_entries (length entries) && not (contains_key d entries)
      then if leb max_entries_per_initiator_when_full held then none else reclaim evicted entries
      else some entries
