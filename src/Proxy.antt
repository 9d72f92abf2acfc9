-- ===== src/Proxy.antt =====
-- crates/proxy-proto: the client's side of SOCKS5 and HTTP CONNECT, and the SOCKS5 UDP framing.
mod Tests
pub mod Address
pub mod Datagram
pub mod Handshake
pub mod Receive
