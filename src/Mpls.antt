-- ===== src/Mpls.antt =====
-- internal/mpls: label stack entries, the label table with its allocator, and MPLS over UDP.
pub mod Label
pub mod Allocator
pub mod Lfib
pub mod Udp
