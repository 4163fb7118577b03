-- ===== src/Reconciliation.antt =====
-- The revision-chain reconciliation of crates/chatgpt-archive/src/reconciliation.
pub mod Model
pub mod OrderedMap
pub mod Observe
pub mod Conversations
pub mod Graph
pub mod Report
pub mod Chain
pub mod Core
pub mod Fold
pub mod Growth
mod Tests
