-- ===== src/Cmd.antt =====
-- The programs of cmd.
pub mod Mplstest
pub mod Pingtest
