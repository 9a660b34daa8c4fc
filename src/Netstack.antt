-- ===== src/Netstack.antt =====
-- internal/netstack: the embedded network stack and what is forwarded through it.
pub mod Manager
pub mod Sockets
pub mod Forward
