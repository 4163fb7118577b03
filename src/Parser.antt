-- ===== src/Parser.antt =====
-- The parser of archives: crates/chatgpt-archive/src/synthetic_parser and parser_registry.rs.
mod Tests
pub mod Parts
pub mod Input
pub mod Decode
pub mod Assets
pub mod Archive
pub mod Registry
