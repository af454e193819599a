-- ===== src/Veth.antt =====
-- The virtual Ethernet interface between the network stack and the DPDK ports,
-- bsd/lib/lazybsd_veth.c.
pub mod Zc
mod Examples
pub mod Requests
pub mod Attach
pub mod Interface
pub mod Prefix
pub mod Received
pub mod Writes
pub mod Packet
pub mod Appends
