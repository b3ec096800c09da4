-- ===== src/Kernel.antt =====
-- The deterministic economic kernel, crates/kernel/src/flow.rs: its maps, and one child module
-- for each part of the file.
pub mod Cursor
pub mod Held
pub mod Routes
pub mod Network
pub mod Search
pub mod Capacity
pub mod Standing
mod Tests
use edet.Base.{ℕ, List}
use edet.Map.{Map}

-- Stakes, keyed by creditor and debtor.
abbrev pub Edges : Type 0
Edges = Map (ℕ × ℕ) ℕ

-- Flow held against outstanding credit, keyed like the stakes.
abbrev pub Reservations : Type 0
Reservations = Map (ℕ × ℕ) ℕ

-- Flow drawn through each underwriter's supply arc.
abbrev pub Committed : Type 0
Committed = Map ℕ ℕ

-- An underwriter and the supply they declared.
abbrev pub Underwriters : Type 0
Underwriters = List (ℕ × ℕ)

abbrev pub u64_max : ℕ
u64_max = 18_446_744_073_709_551_615
