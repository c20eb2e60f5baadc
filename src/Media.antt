-- ===== src/Media.antt =====
-- The media server, backend/src/media.
pub mod Range
mod Tests
