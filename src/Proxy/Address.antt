-- ===== src/Proxy/Address.antt =====
-- `SocksAddress` of crates/proxy-proto/src/lib.rs.
use yayatht.Base.{ℕ}
use yayatht.Base.{List}
use yayatht.Net.{SocketAddr}

pub data SocksAddress : Type 0 where
  socket : SocketAddr → SocksAddress
  domain : List ℕ → ℕ → SocksAddress
