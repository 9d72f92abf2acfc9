-- ===== src/Net.antt =====
-- Socket addresses (`std::net::SocketAddr`): the octets of the address, in order, and the port. The
-- flow label and scope of an IPv6 address are left out. crates/sys/src/socket.rs fills both in when it
-- reads the name of a socket; the modelled parts read neither.
use yayatht.Base.{ℕ, List}

pub data SocketAddr : Type 0 where
  v4 : List ℕ → ℕ → SocketAddr
  v6 : List ℕ → ℕ → SocketAddr
