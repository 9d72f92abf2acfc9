-- ===== src/Packet.antt =====
-- crates/packet: parsing and writing of the frames that cross the TAP device.
mod Tests
pub mod Error
pub mod Checksum
pub mod Ethernet
pub mod Vnet
pub mod Ip
pub mod Tcp
pub mod Udp
