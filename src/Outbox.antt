-- ===== src/Outbox.antt =====
-- The transactional outbox and its pump: crates/chatgpt-archive/src/receipt/outbox, outbox.rs,
-- stream_erasure.rs, deletion_ack.rs and announced_subjects.rs.
mod Tests
pub mod Model
pub mod Store
pub mod Subject
pub mod Marks
pub mod Erasure
pub mod Carry
pub mod Pump
pub mod Copies
pub mod Removal
pub mod Acks
pub mod Announced
pub mod Events
