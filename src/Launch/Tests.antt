-- ===== src/Launch/Tests.antt =====
-- A configuration for four workers.
use yayatht.Base.{ℕ, ◌+◌, ◌≤◌}
use yayatht.Base.{◌≡◌, refl, true, false}
use yayatht.Base.{none, some, [], ◌∷◌, arith}
use yayatht.Launch.Config.{
  NetworkConfig, direct, dns_off, sandbox_on, LaunchConfig, Config, dataplane, validate,
  worker_share,
}
use yayatht.Launch.Shares.{shares, shares-total}
use yayatht.Launch.Valid.{Allotted, validate-Allotted}

abbrev network : NetworkConfig
network = record {
  interface_name = b'e' ∷ b't' ∷ b'h' ∷ b'0' ∷ [];
  tap_mtu = 1500;
  tap_offload = true;
  target_mac = 2 ∷ 121 ∷ 97 ∷ 121 ∷ 97 ∷ 2 ∷ [];
  gateway_mac = 2 ∷ 121 ∷ 97 ∷ 121 ∷ 97 ∷ 1 ∷ [];
  target_ipv4 = some (192 ∷ 0 ∷ 2 ∷ 2 ∷ [], 24);
  gateway_ipv4 = some (192 ∷ 0 ∷ 2 ∷ 1 ∷ []);
  target_ipv6 = none;
  gateway_ipv6 = none;
}

abbrev four_workers : LaunchConfig
four_workers = record {
  command = (b's' ∷ b'h' ∷ []) ∷ [];
  name = some (b'a' ∷ b'-' ∷ b'1' ∷ []);
  runtime_root = none;
  network = network;
  upstream = direct false;
  dns = record { mode = dns_off; upstream = none };
  sandbox = sandbox_on;
  max_tcp_flows = 10;
  udp_enabled = true;
  max_udp_flows = 7;
  max_udp_associations = 4;
  workers = 4;
  max_pending_tcp_bytes = 65537;
  max_retained_tcp_bytes = 65536;
  tcp_receive_buffer_bytes = 16384;
  tcp_send_buffer_bytes = 16384;
}

four_workers_pass : validate four_workers ≡ none
unfolding validate
four_workers_pass = refl

validate-Allotted_example :
    (d : Config) × (dataplane four_workers 3 ≡ some d) × Allotted ℕ four_workers d
validate-Allotted_example = validate-Allotted ℕ four_workers 3 four_workers_pass (omega arith)

shares-total_example :
    (shares 10 4 4 ≡ 10) × ((i j : ℕ) → worker_share 10 4 i ≤ worker_share 10 4 j + 1)
shares-total_example = shares-total 10 4 (omega arith)
