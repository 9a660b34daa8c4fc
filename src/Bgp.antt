-- ===== src/Bgp.antt =====
-- The BGP side: internal/bgp.
pub mod Paths
pub mod Families
pub mod Proxy
pub mod Server
pub mod Filter
pub mod Export
pub mod Start
