-- ===== src/Tcp/Flow/Fin.antt =====
-- What a FIN that carries data does to the acknowledgment point.
use yayatht.Base.{ℕ, ◌+◌, ◌%◌, ◌^◌, ◌≤◌, ◌<◌}
use yayatht.Base.{◌≡◌, refl, sym, ap, ◌∙◌, true, false}
use yayatht.Base.{Option, none, some, arith}
use yayatht.Base.{u64_max, u32, add32, ◌<<<◌}
use yayatht.Tcp.Sequence.{before}
use yayatht.Tcp.Flow.{
  Flow, record_upstream_submitted, record_upstream_ack, receive, receive_data, accept_fin,
  advertised_window, take_ack, acknowledge_local, in_order,
}
use yayatht.Tcp.Flow.Window.{EdgeAhead, advertised_window-eq}
use yayatht.Tcp.Flow.Upstream.{Ledger}

-- A flow with nothing outstanding upstream that receives its last data together with the FIN.
pub finished : Flow → Option ℕ → ℕ → ℕ → Flow
finished f acknowledgment window len =
    (receive f f.namespace_next acknowledgment window len true false).1

-- The payload goes to the upstream after `receive`.
pub handed_on : Flow → Option ℕ → ℕ → ℕ → Flow
unfolding finished
handed_on f acknowledgment window len =
    record_upstream_submitted (finished f acknowledgment window len) len

-- What an acknowledgment of the adapter's bytes leaves alone.
record SameUpstream (f g : Flow) : Type 0 where
  next : g.namespace_next ≡ f.namespace_next
  initial : g.namespace_initial ≡ f.namespace_initial
  acked : g.namespace_acked ≡ f.namespace_acked
  edge : g.receive_edge ≡ f.receive_edge
  submitted : g.upstream_submitted ≡ f.upstream_submitted
  upstream : g.upstream_acked ≡ f.upstream_acked
  baseline : g.upstream_ack_baseline ≡ f.upstream_ack_baseline

acknowledge_local-SameUpstream : (f : Flow) (ack : ℕ) → SameUpstream f (acknowledge_local f ack)
unfolding acknowledge_local
acknowledge_local-SameUpstream f ack = ground arith

take_ack-SameUpstream :
    (f : Flow) (acknowledgment : Option ℕ) → SameUpstream f (take_ack f acknowledgment)
unfolding take_ack
take_ack-SameUpstream f none = ground arith
take_ack-SameUpstream f (some ack) = ground (arith, acknowledge_local-SameUpstream f ack)

-- The flow when the data are looked at, and when its FIN is accepted.
abbrev acked_flow : Flow → Option ℕ → ℕ → Flow
acked_flow f acknowledgment window =
    take_ack (record f { peer_window = u32 (window <<< f.peer_window_shift) }) acknowledgment

abbrev with_data : Flow → Option ℕ → ℕ → ℕ → Flow
with_data f acknowledgment window len = record (acked_flow f acknowledgment window) {
  namespace_next = add32 (acked_flow f acknowledgment window).namespace_next len;
}

acked_flow-SameUpstream :
    (f : Flow) (acknowledgment : Option ℕ) (window : ℕ)
    → SameUpstream f (acked_flow f acknowledgment window)
acked_flow-SameUpstream f acknowledgment window =
    let s =
      take_ack-SameUpstream (record f { peer_window = u32 (window <<< f.peer_window_shift) })
        acknowledgment in
    record {
      next = s.next;
      initial = s.initial;
      acked = s.acked;
      edge = s.edge;
      submitted = s.submitted;
      upstream = s.upstream;
      baseline = s.baseline;
    }

same_window : (f g : Flow) → SameUpstream f g → advertised_window g ≡ advertised_window f
unfolding advertised_window
same_window f g s = rw (s.edge, s.next) refl

finished-eq :
    (f : Flow) (acknowledgment : Option ℕ) (window len : ℕ)
    → EdgeAhead f
    → 0 < len
    → len ≤ advertised_window f
    → receive f f.namespace_next acknowledgment window len true false
      ≡ (in_order len true, accept_fin (with_data f acknowledgment window len))
unfolding receive receive_data
finished-eq f acknowledgment window len v pos fits =
    let s = acked_flow-SameUpstream f acknowledgment window in
    let w = same_window f (acked_flow f acknowledgment window) s in
    ground (arith, w, s.next, advertised_window-eq v, v.ahead)

accept_fin_acks :
    (f : Flow)
    → f.upstream_acked ≡ f.upstream_submitted
    → let g = accept_fin f in
      (g.namespace_acked ≡ add32 f.namespace_next 1)
      × (g.namespace_initial ≡ f.namespace_initial)
      × (g.upstream_submitted ≡ f.upstream_submitted)
      × (g.upstream_acked ≡ f.upstream_acked)
      × (g.upstream_ack_baseline ≡ f.upstream_ack_baseline)
unfolding accept_fin
accept_fin_acks f e = ground arith

-- A segment with payload and FIN, in order on a flow whose upstream has acknowledged everything
-- submitted so far, has its whole payload acknowledged to the namespace at once, before any byte of
-- it is submitted upstream.
pub finished-acks :
    (f : Flow) (acknowledgment : Option ℕ) (received window len : ℕ)
    → Ledger f received
    → EdgeAhead f
    → received ≡ f.upstream_submitted
    → f.upstream_acked ≡ f.upstream_submitted
    → 0 < len
    → len ≤ advertised_window f
    → let g = finished f acknowledgment window len in
      (g.namespace_acked ≡ (f.namespace_initial + 1 + f.upstream_submitted + len + 1) % 2 ^ 32)
      × (g.namespace_initial ≡ f.namespace_initial)
      × (g.upstream_submitted ≡ f.upstream_submitted)
      × (g.upstream_acked ≡ f.upstream_submitted)
      × (g.upstream_ack_baseline ≡ f.upstream_ack_baseline)
unfolding finished
finished-acks f acknowledgment received window len l v r a pos fits =
    let e = finished-eq f acknowledgment window len v pos fits in
    let s = acked_flow-SameUpstream f acknowledgment window in
    let k =
      accept_fin_acks (with_data f acknowledgment window len) (s.upstream ∙ a ∙ sym s.submitted) in
    rw (finished, e)
      (
        ground (arith, k.0, s.next, l, r, a),
        k.1 ∙ s.initial,
        k.2 ∙ s.submitted,
        k.3 ∙ s.upstream ∙ a,
        k.4 ∙ s.baseline,
      )

record Handed (f g : Flow) (len : ℕ) : Type 0 where
  acked : g.namespace_acked ≡ (f.namespace_initial + 1 + f.upstream_submitted + len + 1) % 2 ^ 32
  initial : g.namespace_initial ≡ f.namespace_initial
  submitted : g.upstream_submitted ≡ f.upstream_submitted + len
  upstream : g.upstream_acked ≡ f.upstream_submitted
  baseline : g.upstream_ack_baseline ≡ f.upstream_ack_baseline

handed :
    (f : Flow) (acknowledgment : Option ℕ) (received window len : ℕ)
    → Ledger f received
    → EdgeAhead f
    → received ≡ f.upstream_submitted
    → f.upstream_acked ≡ f.upstream_submitted
    → f.upstream_submitted + len ≤ u64_max
    → 0 < len
    → len ≤ advertised_window f
    → Handed f (handed_on f acknowledgment window len) len
unfolding handed_on record_upstream_submitted
handed f acknowledgment received window len l v r a room pos fits =
    let k = finished-acks f acknowledgment received window len l v r a pos fits in
    record {
      acked = k.0;
      initial = k.1;
      submitted = omega (arith, k.2, room);
      upstream = k.3;
      baseline = k.4;
    }

ack_part :
    (g : Flow) (baseline s len part : ℕ)
    → g.upstream_ack_baseline ≡ baseline
    → g.upstream_acked ≡ s
    → g.upstream_submitted ≡ s + len
    → 0 < part
    → part < len
    → (record_upstream_ack g (baseline + s + part)).1.namespace_acked
      ≡ (g.namespace_initial + 1 + s + part) % 2 ^ 32
unfolding record_upstream_ack
ack_part g baseline s len part e a b pos short = ground arith

apart :
    (base len part : ℕ)
    → 0 < part
    → part < len
    → len < 2 ^ 31
    → before ((base + part) % 2 ^ 32) ((base + len + 1) % 2 ^ 32) ≡ true
unfolding before
apart base len part pos short small = ground arith

-- On a flow without FIN with everything received submitted and acknowledged upstream, a segment at
-- the next sequence number with payload and FIN, with or without an acknowledgment number, whose
-- payload fits the window and 64 bits of submitted bytes, is received in order; once its payload is
-- submitted, an upstream acknowledgment of a proper part of it moves the namespace's acknowledgment
-- point back.
pub finished_retreats :
    (f : Flow) (acknowledgment : Option ℕ) (received window len part : ℕ)
    → Ledger f received
    → EdgeAhead f
    → received ≡ f.upstream_submitted
    → f.upstream_acked ≡ f.upstream_submitted
    → f.upstream_submitted + len ≤ u64_max
    → 0 < part
    → part < len
    → len ≤ advertised_window f
    → let g = handed_on f acknowledgment window len in
      let h = (record_upstream_ack g (f.upstream_ack_baseline + f.upstream_submitted + part)).1 in
      ((receive f f.namespace_next acknowledgment window len true false).0 ≡ in_order len true)
      × (before h.namespace_acked g.namespace_acked ≡ true)
finished_retreats f acknowledgment received window len part l v r a room pos short fits =
    let h = handed f acknowledgment received window len l v r a room (omega arith) fits in
    let g = handed_on f acknowledgment window len in
    let s = f.upstream_submitted in
    let later =
      ack_part g f.upstream_ack_baseline s len part h.baseline h.upstream h.submitted pos short in
    (
      ap (λ q. q.0) (finished-eq f acknowledgment window len v (omega arith) fits),
      rw (later, h.acked, h.initial)
          (apart (f.namespace_initial + 1 + s) len part pos short
            (omega (arith, advertised_window-eq v, v.ahead))),
    )
