-- ===== src/Auth.antt =====
-- backend/src/auth.rs, ratelimit.rs, pin.rs, and the sessions of admin.rs.
pub mod Limits
pub mod Pairing
pub mod Requests
pub mod Flash
pub mod Gate
mod Tests
