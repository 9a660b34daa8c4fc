-- ===== src/Router.antt =====
-- internal/router: the forwarding table, next hop resolution and the packet paths.
pub mod Scan
pub mod Fib
pub mod Nexthop
pub mod Header
pub mod Packets
