-- ===== src/Shared.antt =====
-- The package shared: errors, the database interface, torrents and their pictures.
pub mod Stores
pub mod Errors
pub mod Database
pub mod Torrent
mod Tests
