-- ===== src/Jackett.antt =====
-- backend/src/jackett.rs: what a release name says, and the rules that a release must pass.
pub mod Tokens
pub mod Health
pub mod Episode
pub mod Languages
pub mod Sizes
mod Tests
pub mod Hits
pub mod Indexers
pub mod Episodes
pub mod Screening
pub mod ReleaseTags
pub mod Target
