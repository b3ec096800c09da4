-- ===== src/View/Pending/Inbox.antt =====
-- The reads of `PendingPool` in crates/view/src/pending.rs: `live_count`, `for_party` and `awaits`.
pub mod Awaiting
use edet.Base.{ℕ, Bool, false, not, ◌&&◌, ◌||◌, none, some, List, [], ◌∷◌, leb, if◌then◌else◌}
use edet.Bytes.{Bytes}
use edet.Map.{Map, get, contains_key}
use edet.Map.Strings.{bytes_ordered}
use edet.View.Party.{Party, party_ordered, names, same_party}
use edet.View.Pending.{Registry, PendingEntry, PendingPool, signed_parties}
use edet.View.Pending.Reclaim.{count_entries}

abbrev pub PendingList : Type 0 → Type 0
PendingList F = List (Bytes × PendingEntry F)

module _ {F : Type 0} where
  unfoldable pub live_count : ℕ → PendingPool F → ℕ
  unfolding count_entries
  live_count epoch pool = count_entries (λ e. leb epoch e.not_after_epoch) pool.entries

  -- The loop of `for_party`: the entries that await the party, and the party's own.
  unfoldable pub for_each :
      Registry → Party → Map Bytes (PendingEntry F) → PendingList F × PendingList F
  unfolding signed_parties
  for_each st party [] = ([], [])
  for_each st party ((d, entry) ∷ m) =
      let (awaiting, mine) = for_each st party m in
      let signed = contains_key party (signed_parties st entry) in
      if names party entry.required && not signed
      then ((d, entry) ∷ awaiting, mine)
      else if signed || same_party (Party.member entry.initiator) party
      then (awaiting, (d, entry) ∷ mine)
      else (awaiting, mine)

  unfoldable pub for_party : Registry → Party → PendingPool F → PendingList F × PendingList F
  unfolding for_each
  for_party st party pool = for_each st party pool.entries

  unfoldable pub awaits : Bytes → Party → PendingPool F → Bool
  awaits d party pool = elim (get d pool.entries) [ none ↦ false | some e ↦ names party e.required ]
