-- ===== src/Kernel/Cursor.antt =====
-- `ReservedCursor` of crates/kernel/src/flow.rs: the reservations are read in one pass beside
-- the stakes. The cursor is the entries that it has not passed yet.
pub mod Lookup
use edet.Base.{ℕ, [], ◌∷◌, Ordering}
use edet.Map.Keys.{pair_ordered}
use edet.Kernel.{Reservations}

abbrev pub ReservedCursor : Type 0
ReservedCursor = Reservations

-- `ReservedCursor::new`
abbrev pub new : Reservations → ReservedCursor
new reserved = reserved

-- `ReservedCursor::at`: the reservation on `key`, or zero, and the cursor past every entry below it.
unfoldable pub at : ℕ × ℕ → ReservedCursor → ℕ × ReservedCursor
at key [] = (0, [])
at key ((k, v) ∷ next) = elim (pair_ordered.cmp k key) [
  | Ordering.lt ↦ at key next
  | Ordering.eq ↦ (v, (k, v) ∷ next)
  | Ordering.gt ↦ (0, (k, v) ∷ next)
]
