-- ===== src/Receipt.antt =====
-- The archive receipt of crates/chatgpt-archive/src/receipt: the durable records, the repository
-- that changes them and the receiver that walks one upload through the import states.
pub mod World
pub mod Mode
pub mod BlobStore
pub mod Records
pub mod Sql
pub mod Repository
pub mod Publish
pub mod Staging
pub mod Settle
pub mod Orderly
pub mod Moves
pub mod Soundness
pub mod Receiver
pub mod Resume
mod Tests
