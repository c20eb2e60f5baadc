-- ===== src/Rank.antt =====
-- backend/src/sources/rank.rs: the one ranking of all results.
pub mod Resolution
pub mod Score
pub mod Order
pub mod Tests
