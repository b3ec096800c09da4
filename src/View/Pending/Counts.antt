-- ===== src/View/Pending/Counts.antt =====
-- Counts over the entries of crates/view/src/pending.rs after each write of the map.
use edet.Base.{◌+◌, ◌≤◌, ◌≡◌, Bool, none, some, List, [], ◌∷◌, arith, if◌then◌else◌}
use edet.Bytes.{Bytes}
use edet.Map.{Map, get, insert, remove, retain, IsSorted}
use edet.Map.Laws.{get-Above, Above-mono}
use edet.Map.Strings.{bytes_ordered}
use edet.View.Pending.{PendingEntry}
use edet.View.Pending.Reclaim.{count_entries, remove_all}

module _ {F : Type 0} (p : PendingEntry F → Bool) where
  pub count_entries-insert :
      (d : Bytes) (e : PendingEntry F) (m : Map Bytes (PendingEntry F))
      → IsSorted m
      → get d m ≡ none
      → count_entries p (insert d e m) ≡ (if p e then 1 else 0) + count_entries p m
  unfolding count_entries
  count_entries-insert d e [] h g = omega arith
  count_entries-insert d e ((j, w) ∷ m) h g = ground (arith, count_entries-insert d e m h.1)

  pub count_entries-insert_same :
      (d : Bytes) (e w : PendingEntry F) (m : Map Bytes (PendingEntry F))
      → IsSorted m
      → get d m ≡ some w
      → p e ≡ p w
      → count_entries p (insert d e m) ≡ count_entries p m
  unfolding count_entries
  count_entries-insert_same d e w [] h g q = ground arith
  count_entries-insert_same d e w ((j, x) ∷ m) h g q =
      ground (arith, count_entries-insert_same d e w m h.1, get-Above d m, Above-mono d j m, h.0)

  pub count_entries-remove :
      (d : Bytes) (m : Map Bytes (PendingEntry F))
      → count_entries p (remove d m) ≤ count_entries p m
  unfolding count_entries
  count_entries-remove d [] = omega arith
  count_entries-remove d ((j, w) ∷ m) = ground (arith, count_entries-remove d m)

  pub count_entries-retain :
      (q : Bytes → PendingEntry F → Bool) (m : Map Bytes (PendingEntry F))
      → count_entries p (retain q m) ≤ count_entries p m
  unfolding count_entries
  count_entries-retain q [] = omega arith
  count_entries-retain q ((j, w) ∷ m) = ground (arith, count_entries-retain q m)

  pub count_entries-remove_all :
      (ds : List Bytes) (m : Map Bytes (PendingEntry F))
      → count_entries p (remove_all ds m) ≤ count_entries p m
  unfolding remove_all
  count_entries-remove_all [] m = omega arith
  count_entries-remove_all (d ∷ ds) m =
      ground (arith, count_entries-remove_all ds (remove d m), count_entries-remove d m)
