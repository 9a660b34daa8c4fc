-- ===== src/Tests.antt =====
-- Small inputs: runs of the definitions, and each result with hypotheses at an input that meets them.
mod Mpls
mod Tables
mod Stores
mod Packets
mod Bgp
mod Devices
mod Programs
mod Ping
mod Work
mod Speakers
mod Netstack
