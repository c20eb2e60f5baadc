-- ===== src/Sources.antt =====
-- backend/src/sources/mod.rs and rank.rs: what a result is, when two results are the same, how the
-- answers of all sources are gathered, merged and ranked.
pub mod Types
pub mod Hex
pub mod Base32
pub mod Key
pub mod Magnet
pub mod Merge
pub mod Gather
pub mod Links
pub mod Tests
