-- ===== src/Launch/Config.antt =====
-- `LaunchConfig` and `validate` of crates/namespace/src/config.rs. Texts and paths are their bytes.
use yayatht.Base.{ℕ, ◌+◌, ◌*◌, ◌/◌, ◌%◌, ◌^◌, min}
use yayatht.Base.{Bool, true, false, not, ◌&&◌, ◌||◌}
use yayatht.Base.{Option, none, some, List, [], ◌∷◌, ◌++◌, ltb, leb, ◌==◌, if◌then◌else◌, is_some}
use yayatht.Base.{replicate}
use yayatht.Base.{u64_max}
use yayatht.Net.{SocketAddr}
use yayatht.Proxy.Handshake.{Credentials, Protocol, socks5, http_connect}

abbrev max_workers : ℕ
max_workers = 256

-- `MIN_TAP_MTU` and `MAX_TAP_MTU` of crates/sys/src/tun.rs.
abbrev pub min_tap_mtu : ℕ
min_tap_mtu = 1280

abbrev pub max_tap_mtu : ℕ
max_tap_mtu = 65520

pub data SandboxConfig : Type 0 where
  sandbox_on sandbox_off : SandboxConfig

pub data DnsMode : Type 0 where
  proxy_tcp proxy_udp dns_off : DnsMode

pub record DnsConfig : Type 0 where
  pub mode : DnsMode
  pub upstream : Option SocketAddr

pub data UpstreamConfig : Type 0 where
  direct : Bool → UpstreamConfig
  proxy : Protocol → SocketAddr → Option Credentials → UpstreamConfig

-- An address is its octets; the number beside it is the length of its prefix.
pub record NetworkConfig : Type 0 where
  pub interface_name : List ℕ
  pub tap_mtu : ℕ
  pub tap_offload : Bool
  pub target_mac : List ℕ
  pub gateway_mac : List ℕ
  pub target_ipv4 : Option (List ℕ × ℕ)
  pub gateway_ipv4 : Option (List ℕ)
  pub target_ipv6 : Option (List ℕ × ℕ)
  pub gateway_ipv6 : Option (List ℕ)

pub record LaunchConfig : Type 0 where
  pub command : List (List ℕ)
  pub name : Option (List ℕ)
  pub runtime_root : Option (List ℕ)
  pub network : NetworkConfig
  pub upstream : UpstreamConfig
  pub dns : DnsConfig
  pub sandbox : SandboxConfig
  pub max_tcp_flows : ℕ
  pub udp_enabled : Bool
  pub max_udp_flows : ℕ
  pub max_udp_associations : ℕ
  pub workers : ℕ
  pub max_pending_tcp_bytes : ℕ
  pub max_retained_tcp_bytes : ℕ
  pub tcp_receive_buffer_bytes : ℕ
  pub tcp_send_buffer_bytes : ℕ

pub data ConfigError : Type 0 where
  empty_command no_ip_family invalid_flow_limit invalid_udp_flow_limit : ConfigError
  invalid_udp_association_limit invalid_global_byte_limit invalid_socket_buffer_limit : ConfigError
  invalid_tap_mtu invalid_name invalid_proxy_udp invalid_worker_count : ConfigError
  insufficient_worker_flows insufficient_worker_bytes : ConfigError

-- Whether a number lies outside a range, its ends included.
abbrev pub outside : ℕ → ℕ → ℕ → Bool
outside low high n = ltb n low || ltb high n

abbrev pub is_proxy_udp : DnsMode → Bool
is_proxy_udp proxy_tcp = false
is_proxy_udp proxy_udp = true
is_proxy_udp dns_off = false

abbrev pub is_socks5 : UpstreamConfig → Bool
is_socks5 (direct host_loopback) = false
is_socks5 (proxy socks5 address credentials) = true
is_socks5 (proxy http_connect address credentials) = false

abbrev pub is_nil {ℓ} : {A : Type ℓ} → List A → Bool
is_nil [] = true
is_nil (x ∷ xs) = false

-- `is_ascii_alphanumeric` or one of `_.-`.
abbrev pub is_name_byte : ℕ → Bool
is_name_byte byte =
    (leb b'0' byte && leb byte b'9')
    || (leb b'A' byte && leb byte b'Z')
    || (leb b'a' byte && leb byte b'z')
    || byte == b'_'
    || byte == b'.'
    || byte == b'-'

abbrev pub all_name_bytes : List ℕ → Bool
all_name_bytes [] = true
all_name_bytes (byte ∷ bytes) = is_name_byte byte && all_name_bytes bytes

abbrev pub bad_name : Option (List ℕ) → Bool
bad_name none = false
bad_name (some name) = is_nil name || not (all_name_bytes name)

-- `1024usize.pow(4)`.
abbrev pub tib : ℕ
tib = 1024 ^ 4

-- The conditions of `validate` in its order, each with the error that it returns.
abbrev pub checks : LaunchConfig → List (Bool × ConfigError)
checks c =
    let worker_byte_floor = min (c.workers * (16 * 1024)) u64_max in
    (is_nil c.command, empty_command)
    ∷ (not (is_some c.network.target_ipv4) && not (is_some c.network.target_ipv6), no_ip_family)
    ∷ (outside min_tap_mtu max_tap_mtu c.network.tap_mtu, invalid_tap_mtu)
    ∷ (outside 1 1_048_576 c.max_tcp_flows, invalid_flow_limit)
    ∷ (outside 1 1_048_576 c.max_udp_flows, invalid_udp_flow_limit)
    ∷ (outside 1 1_048_576 c.max_udp_associations, invalid_udp_association_limit)
    ∷ (outside 1 max_workers c.workers, invalid_worker_count)
    ∷ (
      ltb c.max_tcp_flows c.workers
          || ltb c.max_udp_flows c.workers
          || ltb c.max_udp_associations c.workers,
      insufficient_worker_flows,
    )
    ∷ (
      is_proxy_udp c.dns.mode && (not c.udp_enabled || not (is_socks5 c.upstream)),
      invalid_proxy_udp,
    )
    ∷ (
      outside (16 * 1024) tib c.max_pending_tcp_bytes
          || outside (16 * 1024) tib c.max_retained_tcp_bytes,
      invalid_global_byte_limit,
    )
    ∷ (
      ltb c.max_pending_tcp_bytes worker_byte_floor
          || ltb c.max_retained_tcp_bytes worker_byte_floor,
      insufficient_worker_bytes,
    )
    ∷ (
      outside (16 * 1024) (16 * 1024 * 1024) c.tcp_receive_buffer_bytes
          || outside (16 * 1024) (16 * 1024 * 1024) c.tcp_send_buffer_bytes,
      invalid_socket_buffer_limit,
    )
    ∷ (bad_name c.name, invalid_name)
    ∷ []

abbrev pub first_error : List (Bool × ConfigError) → Option ConfigError
first_error [] = none
first_error ((failed, error) ∷ rest) = if failed then some error else first_error rest

-- The error, if there is one.
unfoldable pub validate : LaunchConfig → Option ConfigError
validate c = first_error (checks c)

unfoldable pub worker_share : ℕ → ℕ → ℕ → ℕ
worker_share total workers worker_index =
    total / workers + (if ltb worker_index (total % workers) then 1 else 0)

-- `reactor::Config` of crates/dataplane/src/reactor.rs; `Upstream` there is `UpstreamConfig` again.
pub record Config : Type 0 where
  pub target_mac : List ℕ
  pub gateway_mac : List ℕ
  pub target_ipv4 : Option (List ℕ)
  pub gateway_ipv4 : Option (List ℕ)
  pub target_ipv6 : Option (List ℕ)
  pub gateway_ipv6 : Option (List ℕ)
  pub tap_mtu : ℕ
  pub tap_offload : Bool
  pub upstream : UpstreamConfig
  pub dns_proxy_tcp : Bool
  pub dns_proxy_udp : Bool
  pub dns_upstream : Option SocketAddr
  pub max_tcp_flows : ℕ
  pub udp_enabled : Bool
  pub max_udp_flows : ℕ
  pub max_udp_associations : ℕ
  pub worker_count : ℕ
  pub max_pending_tcp_bytes : ℕ
  pub max_retained_tcp_bytes : ℕ
  pub tcp_receive_buffer_bytes : ℕ
  pub tcp_send_buffer_bytes : ℕ

abbrev is_proxy_tcp : DnsMode → Bool
is_proxy_tcp proxy_tcp = true
is_proxy_tcp proxy_udp = false
is_proxy_tcp dns_off = false

abbrev address_of : Option (List ℕ × ℕ) → Option (List ℕ)
address_of none = none
address_of (some (address, prefix)) = some address

-- `none` is the failed assertion.
unfoldable pub dataplane : LaunchConfig → ℕ → Option Config
unfolding worker_share
dataplane c worker_index =
    let share = λ (total : ℕ). worker_share total c.workers worker_index in
    if not (ltb worker_index c.workers)
    then none
    else some (record {
      target_mac = c.network.target_mac;
      gateway_mac = c.network.gateway_mac;
      target_ipv4 = address_of c.network.target_ipv4;
      gateway_ipv4 = c.network.gateway_ipv4;
      target_ipv6 = address_of c.network.target_ipv6;
      gateway_ipv6 = c.network.gateway_ipv6;
      tap_mtu = c.network.tap_mtu;
      tap_offload = c.network.tap_offload;
      upstream = c.upstream;
      dns_proxy_tcp = is_proxy_tcp c.dns.mode;
      dns_proxy_udp = is_proxy_udp c.dns.mode;
      dns_upstream = c.dns.upstream;
      max_tcp_flows = share c.max_tcp_flows;
      udp_enabled = c.udp_enabled;
      max_udp_flows = share c.max_udp_flows;
      max_udp_associations = share c.max_udp_associations;
      worker_count = c.workers;
      max_pending_tcp_bytes = share c.max_pending_tcp_bytes;
      max_retained_tcp_bytes = share c.max_retained_tcp_bytes;
      tcp_receive_buffer_bytes = c.tcp_receive_buffer_bytes;
      tcp_send_buffer_bytes = c.tcp_send_buffer_bytes;
    })

abbrev pub enabled : SandboxConfig → Bool
enabled sandbox_on = true
enabled sandbox_off = false

abbrev pub off : DnsConfig
off = record { mode = dns_off; upstream = none }

abbrev synthetic_v6 : ℕ → List ℕ
synthetic_v6 host =
    0xfd ∷ 0x79 ∷ 0x61 ∷ 0x79 ∷ 0x61 ∷ 0x74 ∷ 0x68 ∷ 0x74 ∷ (replicate 7 0 ++ host ∷ [])

abbrev then_some {ℓ} : {A : Type ℓ} → Bool → A → Option A
then_some b a = if b then some a else none

abbrev pub synthetic : Bool → Bool → ℕ → Bool → NetworkConfig
synthetic ipv4 ipv6 tap_mtu tap_offload = record {
  interface_name = b'e' ∷ b't' ∷ b'h' ∷ b'0' ∷ [];
  tap_mtu = tap_mtu;
  tap_offload = tap_offload;
  target_mac = 0x02 ∷ 0x79 ∷ 0x61 ∷ 0x79 ∷ 0x61 ∷ 0x02 ∷ [];
  gateway_mac = 0x02 ∷ 0x79 ∷ 0x61 ∷ 0x79 ∷ 0x61 ∷ 0x01 ∷ [];
  target_ipv4 = then_some ipv4 (192 ∷ 0 ∷ 2 ∷ 2 ∷ [], 24);
  gateway_ipv4 = then_some ipv4 (192 ∷ 0 ∷ 2 ∷ 1 ∷ []);
  target_ipv6 = then_some ipv6 (synthetic_v6 2, 64);
  gateway_ipv6 = then_some ipv6 (synthetic_v6 1);
}

abbrev cleared : UpstreamConfig → UpstreamConfig
cleared (direct host_loopback) = direct host_loopback
cleared (proxy protocol address credentials) = proxy protocol address none

abbrev pub clear_proxy_credentials : LaunchConfig → LaunchConfig
clear_proxy_credentials c = record c { upstream = cleared c.upstream }
