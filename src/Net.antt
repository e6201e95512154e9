-- ===== src/Net.antt =====
-- The network stack of net/.
pub mod Arp
pub mod Checksum
pub mod Tcp
pub mod Udp
mod Tests
