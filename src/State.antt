-- ===== src/State.antt =====
-- The replicated state machine of crates/state.
pub mod Journal
pub mod Ledger
pub mod Replay
pub mod Loss
pub mod Root
mod Tests
