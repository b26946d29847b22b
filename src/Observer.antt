-- ===== src/Observer.antt =====
-- observer.go: the crawler. `Settings` has its settings and what it calls, `Notify` the method
-- `notify`, `Check` the method `CheckTorrent`, `Engage` the loop, `Life` the start and the end.
pub mod Settings
pub mod Aside
pub mod Notify
pub mod Check
pub mod Engage
pub mod Life
pub mod Doubles
mod Tests
