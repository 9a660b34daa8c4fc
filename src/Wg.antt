-- ===== src/Wg.antt =====
-- The WireGuard side: internal/wg.
pub mod Tun
pub mod Transport
