-- ===== src/Torrents.antt =====
-- .torrent files, backend/src/torrent_links.rs.
pub mod Bencode
pub mod Link
mod Tests
