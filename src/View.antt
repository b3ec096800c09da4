-- ===== src/View.antt =====
-- The rules that every view of the ledger shares, crates/view.
pub mod Party
pub mod Pending
mod Tests
