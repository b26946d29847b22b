-- ===== src/Producer.antt =====
-- The package producer: the registry of factories, the announcer and the message helpers.
pub mod Announcer
pub mod Registry
pub mod FileSize
pub mod Indexes
pub mod Values
pub mod Telegram
pub mod SqlStore
pub mod HashStore
pub mod Stan
pub mod Stream
pub mod Vk
pub mod Lmdb
pub mod FileStore
mod Tests
