-- ===== src/Node.antt =====
-- The node of crates/node.
pub mod Mempool
pub mod Block
mod Tests
