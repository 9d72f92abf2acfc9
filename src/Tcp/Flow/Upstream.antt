-- ===== src/Tcp/Flow/Upstream.antt =====
-- The acknowledgment that the namespace sees follows the upstream's, byte for byte, until a FIN.
use yayatht.Base.{ℕ, ◌+◌, ◌-◌, ◌%◌, ◌^◌, ◌≤◌, min, max}
use yayatht.Base.{◌≡◌, false}
use yayatht.Base.{arith, ltb}
use yayatht.Base.{u64_max, IsU32}
use yayatht.Tcp.Flow.{
  Flow, record_upstream_submitted, record_upstream_ack, upstream_unacked, new_flow,
}

-- The bytes received in order, as a count that does not wrap, against the fields of the flow.
pub record Ledger (f : Flow) (received : ℕ) : Type 0 where
  pub initial_word : IsU32 f.namespace_initial
  pub expected : f.namespace_next ≡ (f.namespace_initial + 1 + received) % 2 ^ 32
  pub acked_point : f.namespace_acked ≡ (f.namespace_initial + 1 + f.upstream_acked) % 2 ^ 32
  pub acked_le : f.upstream_acked ≤ f.upstream_submitted
  pub submitted_le : f.upstream_submitted ≤ received
  pub open_end : f.namespace_fin ≡ false

-- A new flow has an empty ledger.
pub new_flow-Ledger :
    (namespace_initial local_initial mss peer_shift local_shift : ℕ)
    → IsU32 namespace_initial
    → Ledger (new_flow namespace_initial local_initial mss peer_shift local_shift) 0
unfolding new_flow
new_flow-Ledger ni li mss ps ls h = ground arith

-- On a flow without FIN whose counts are in order, `record_upstream_ack` acknowledges to the
-- namespace exactly what the upstream has acknowledged since the connection, cut to what was
-- submitted; it never goes back and reports whether it moved.
pub record_upstream_ack_lem :
    (f : Flow) (bytes_acked received : ℕ)
    → Ledger f received
    → let (moved, g) = record_upstream_ack f bytes_acked in
      let now = min (bytes_acked - f.upstream_ack_baseline) f.upstream_submitted in
      (g.upstream_acked ≡ max f.upstream_acked now)
      × (moved ≡ ltb f.upstream_acked now)
      × Ledger g received
unfolding record_upstream_ack
record_upstream_ack_lem f bytes_acked received l = ground (arith, l)

-- Submitting bytes that were received and not yet submitted keeps the ledger.
pub record_upstream_submitted-Ledger :
    (f : Flow) (n received : ℕ)
    → Ledger f received
    → f.upstream_submitted + n ≤ received
    → received ≤ u64_max
    → Ledger (record_upstream_submitted f n) received
      × (upstream_unacked (record_upstream_submitted f n) ≡ upstream_unacked f + n)
unfolding record_upstream_submitted upstream_unacked
record_upstream_submitted-Ledger f n received l h small = ground (arith, l)
