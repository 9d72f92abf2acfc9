-- ===== src/Launch/Valid.antt =====
-- What a configuration that `validate` accepts gives every worker.
use yayatht.Base.{ℕ, ◌*◌, ◌^◌, ◌≤◌, ◌<◌}
use yayatht.Base.{◌≡◌, refl, Bool, true, false}
use yayatht.Base.{none, some, List, [], ◌∷◌, arith, ltb}
use yayatht.Base.{All}
use yayatht.Launch.Config.{
  min_tap_mtu, max_tap_mtu, LaunchConfig, ConfigError, outside, tib, is_proxy_udp, is_socks5,
  checks, first_error, validate, worker_share, Config, dataplane,
}
use yayatht.Flows.Table.{FlowTable, with_capacity}
use yayatht.Flows.Table.Inv.{with_capacity-Inv}
use yayatht.Flows.Table.Inv as Table
use yayatht.Udp.Engine.{Engine, new}
use yayatht.Udp.Engine.Inv.{Inv}
use yayatht.Udp.Engine.Start.{new-Inv}
use yayatht.Launch.Shares.{worker_share-bounds}

All-pass : (cs : List (Bool × ConfigError)) → first_error cs ≡ none → All (λ c. c.0 ≡ false) cs
All-pass [] h = tt
All-pass ((true, error) ∷ rest) h = absurd cc
All-pass ((false, error) ∷ rest) h = (refl, All-pass rest h)

outside-false : (low high n : ℕ) → outside low high n ≡ false → (low ≤ n) × (n ≤ high)
outside-false low high n h = (ground arith, ground arith)

-- The limits that a configuration is valid under.
pub record Limits (c : LaunchConfig) : Type 0 where
  pub mtu : (min_tap_mtu ≤ c.network.tap_mtu) × (c.network.tap_mtu ≤ max_tap_mtu)
  pub workers : (1 ≤ c.workers) × (c.workers ≤ 256)
  pub tcp_flows : (c.workers ≤ c.max_tcp_flows) × (c.max_tcp_flows ≤ 2 ^ 20)
  pub udp_flows : (c.workers ≤ c.max_udp_flows) × (c.max_udp_flows ≤ 2 ^ 20)
  pub udp_associations : (c.workers ≤ c.max_udp_associations) × (c.max_udp_associations ≤ 2 ^ 20)
  pub pending : (c.workers * 16384 ≤ c.max_pending_tcp_bytes) × (c.max_pending_tcp_bytes ≤ tib)
  pub retained : (c.workers * 16384 ≤ c.max_retained_tcp_bytes) × (c.max_retained_tcp_bytes ≤ tib)
  pub relay :
      is_proxy_udp c.dns.mode ≡ true → (c.udp_enabled ≡ true) × (is_socks5 c.upstream ≡ true)

valid-Limits : (c : LaunchConfig) → validate c ≡ none → Limits c
unfolding validate
valid-Limits c h =
    let all = All-pass (checks c) h in
    let mtu = all.1.1.0 in
    let tcp = all.1.1.1.0 in
    let udp = all.1.1.1.1.0 in
    let assoc = all.1.1.1.1.1.0 in
    let workers = all.1.1.1.1.1.1.0 in
    let enough = all.1.1.1.1.1.1.1.0 in
    let relay = all.1.1.1.1.1.1.1.1.0 in
    let bytes = all.1.1.1.1.1.1.1.1.1.0 in
    let floor = all.1.1.1.1.1.1.1.1.1.1.0 in
    record {
      mtu = outside-false min_tap_mtu max_tap_mtu c.network.tap_mtu mtu;
      workers = outside-false 1 256 c.workers workers;
      tcp_flows = (ground (arith, enough), ground (arith, tcp));
      udp_flows = (ground (arith, enough), ground (arith, udp));
      udp_associations = (ground (arith, enough), ground (arith, assoc));
      pending = (ground (arith, floor, workers), ground (arith, bytes));
      retained = (ground (arith, floor, workers), ground (arith, bytes));
      relay = λ t. (ground (arith, relay), ground (arith, relay));
    }

-- What one worker gets.
pub record Allotted (A : Type 0) (c : LaunchConfig) (d : Config) : Type 0 where
  pub tcp_flows : (1 ≤ d.max_tcp_flows) × (d.max_tcp_flows ≤ 2 ^ 20)
  pub udp_flows : (1 ≤ d.max_udp_flows) × (d.max_udp_flows ≤ 2 ^ 20)
  pub udp_associations : (1 ≤ d.max_udp_associations) × (d.max_udp_associations ≤ 2 ^ 20)
  pub pending : (16384 ≤ d.max_pending_tcp_bytes) × (d.max_pending_tcp_bytes ≤ tib)
  pub retained : (16384 ≤ d.max_retained_tcp_bytes) × (d.max_retained_tcp_bytes ≤ tib)
  pub relay : d.dns_proxy_udp ≡ true → (d.udp_enabled ≡ true) × (is_socks5 d.upstream ≡ true)
  pub table : (t : FlowTable A) × (with_capacity d.max_tcp_flows ≡ some t) × Table.Inv t
  pub udp : (e : Engine) × (new d.max_udp_flows d.max_udp_associations ≡ some e) × Inv e

share_within :
    (total workers i quantum bound : ℕ)
    → 1 ≤ workers
    → workers * quantum ≤ total
    → total ≤ bound
    → (quantum ≤ worker_share total workers i) × (worker_share total workers i ≤ bound)
share_within total workers i quantum bound h le top =
    let b = worker_share-bounds total workers i quantum h le in (b.0, omega (arith, b.1, top))

-- A configuration that `validate` accepts gives every worker at least one TCP flow, one UDP flow and
-- one association and at least 16 KiB of both byte limits, none more than the global maximum; so the
-- worker's flow table, of whatever entries, and UDP engine are made, in order.
pub validate-Allotted :
    (A : Type 0) (c : LaunchConfig) (worker_index : ℕ)
    → validate c ≡ none
    → worker_index < c.workers
    → (d : Config) × (dataplane c worker_index ≡ some d) × Allotted A c d
unfolding dataplane
validate-Allotted A c i h below =
    let v = valid-Limits c h in
    let tcp =
      share_within c.max_tcp_flows c.workers i 1 (2 ^ 20) v.workers.0 (omega (arith, v.tcp_flows.0))
        v.tcp_flows.1 in
    let udp =
      share_within c.max_udp_flows c.workers i 1 (2 ^ 20) v.workers.0 (omega (arith, v.udp_flows.0))
        v.udp_flows.1 in
    let assoc =
      share_within c.max_udp_associations c.workers i 1 (2 ^ 20) v.workers.0
        (omega (arith, v.udp_associations.0)) v.udp_associations.1 in
    let pending =
      share_within c.max_pending_tcp_bytes c.workers i 16384 tib v.workers.0 v.pending.0
        v.pending.1 in
    let retained =
      share_within c.max_retained_tcp_bytes c.workers i 16384 tib v.workers.0 v.retained.0
        v.retained.1 in
    let inside : ltb i c.workers ≡ true = ground arith in
    let table = with_capacity-Inv {A = A} (worker_share c.max_tcp_flows c.workers i) tcp.1 in
    let engine =
      new-Inv (worker_share c.max_udp_flows c.workers i)
        (worker_share c.max_udp_associations c.workers i) udp.1 in
    rw inside (
      _,
      refl,
      record {
        tcp_flows = tcp;
        udp_flows = udp;
        udp_associations = assoc;
        pending = pending;
        retained = retained;
        relay = v.relay;
        table = (table.0, table.1, table.2);
        udp = (engine.0, engine.1, engine.2);
      },
    )
