-- ===== src/Cmd.antt =====
-- cmd: the program's entry and the copy of one database into another.
pub mod Migrate
pub mod Entry
