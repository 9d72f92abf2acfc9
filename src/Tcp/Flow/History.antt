-- ===== src/Tcp/Flow/History.antt =====
-- Histories of a flow before a FIN: the ledger and the promised edge hold through any operations.
use yayatht.Base.{ℕ, ◌+◌, ◌≤◌}
use yayatht.Base.{◌≡◌, refl, ap, ◌≢◌, ◌⊎◌, inl, inr, Bool, true, false}
use yayatht.Base.{Option, none, some, arith}
use yayatht.Base.{u64_max, u32, ◌<<<◌}
use native.Mathlib.Decide.{ℕ_discrete}
use yayatht.Tcp.Sequence.{distance}
use yayatht.Tcp.Flow.{
  Flow, record_upstream_submitted, record_upstream_ack, receive, receive_data, in_order,
  set_advertised_window, commit_send, SendPlan, ReceiveDisposition, duplicate, out_of_order,
  outside_window, reset, invalid, take_ack, acknowledge_local,
}
use yayatht.Tcp.Flow.Window.{
  EdgeAhead, advertised_window-eq, advertised_window-set_advertised_window,
}
use yayatht.Tcp.Flow.Receive.{SameReceived, EdgeAhead-same, Accepted, receive_lem}
use yayatht.Tcp.Flow.Upstream.{Ledger, record_upstream_ack_lem, record_upstream_submitted-Ledger}

-- What a disposition takes off the wire.
abbrev pub taken : ReceiveDisposition → ℕ
taken (in_order len fin) = len
taken _ = 0

-- The operations before a FIN, with the count of received bytes; a caller submits no more bytes
-- than were received.
pub data Step (f : Flow) (received : ℕ) : Flow → ℕ → Type 0 where
  receives :
      (seq : ℕ) (ack : Option ℕ) (window len : ℕ) (rst : Bool)
      → Step f received
          (receive f seq ack window len false rst).1
          (received + taken (receive f seq ack window len false rst).0)
  submits :
      (n : ℕ)
      → f.upstream_submitted + n ≤ received
      → received ≤ u64_max
      → Step f received (record_upstream_submitted f n) received
  acknowledges : (bytes : ℕ) → Step f received (record_upstream_ack f bytes).1 received
  promises : (budget : ℕ) → Step f received (set_advertised_window f budget).1 received
  sends : (plan : SendPlan) → Step f received (commit_send f plan) received

pub data Reach (f : Flow) (received : ℕ) : Flow → ℕ → Type 0 where
  start : Reach f received f received
  next : {g h : Flow} {m n : ℕ} → Reach f received g m → Step g m h n → Reach f received h n

pub record Sound (f : Flow) (received : ℕ) : Type 0 where
  pub ledger : Ledger f received
  pub edge : EdgeAhead f
  pub shift : f.local_window_shift ≤ 14

shift-take_ack :
    (f : Flow) (ack : Option ℕ) → (take_ack f ack).local_window_shift ≡ f.local_window_shift
unfolding take_ack acknowledge_local
shift-take_ack f none = refl
shift-take_ack f (some ack) = ground arith

shift-receive :
    (f : Flow) (seq : ℕ) (ack : Option ℕ) (window len : ℕ) (rst : Bool)
    → (receive f seq ack window len false rst).1.local_window_shift ≡ f.local_window_shift
unfolding receive receive_data
shift-receive f seq ack window len rst =
    ground
      (arith, shift-take_ack (record f { peer_window = u32 (window <<< f.peer_window_shift) }) ack)

disposition_cases :
    (d : ReceiveDisposition) (len : ℕ) → (d ≡ in_order len false) ⊎ (d ≢ in_order len false)
disposition_cases (in_order n true) len = inr (λ e. cc)
disposition_cases (in_order n false) len = elim (ℕ_discrete n len) [
  | yes e ↦ inl (ap (λ k. in_order k false) e)
  | no ne ↦ inr (λ e. ne (ap taken e))
]
disposition_cases duplicate len = inr (λ e. cc)
disposition_cases out_of_order len = inr (λ e. cc)
disposition_cases outside_window len = inr (λ e. cc)
disposition_cases reset len = inr (λ e. cc)
disposition_cases invalid len = inr (λ e. cc)

-- A disposition that is not the segment's own takes nothing.
refused-taken :
    (f : Flow) (seq : ℕ) (ack : Option ℕ) (window len : ℕ) (rst : Bool)
    → (receive f seq ack window len false rst).0 ≢ in_order len false
    → taken (receive f seq ack window len false rst).0 ≡ 0
unfolding receive receive_data
refused-taken f seq ack window len true ne = refl
refused-taken f seq ack window len false ne = ground arith

Ledger-same :
    (f g : Flow) (received n : ℕ) → SameReceived f g → n ≡ received → Ledger f received → Ledger g n
Ledger-same f g received n s e l = ground (arith, s, l)

Ledger-Accepted :
    (f g : Flow) (received len : ℕ)
    → Accepted f g len false
    → Ledger f received
    → Ledger g (received + len)
Ledger-Accepted f g received len a l = ground (arith, a, l, a.unacked refl)

EdgeAhead-Accepted : (f g : Flow) (len : ℕ) → Accepted f g len false → EdgeAhead f → EdgeAhead g
unfolding distance
EdgeAhead-Accepted f g len a v = ground (arith, a, v, advertised_window-eq v, v.ahead)

receives-Sound :
    (f : Flow) (received seq : ℕ) (ack : Option ℕ) (window len : ℕ) (rst : Bool)
    → Sound f received
    → let (d, g) = receive f seq ack window len false rst in Sound g (received + taken d)
receives-Sound f received seq ack window len rst s =
    let d = (receive f seq ack window len false rst).0 in
    let g = (receive f seq ack window len false rst).1 in
    let lem = receive_lem f seq ack window len false rst s.edge in
    let shift : g.local_window_shift ≤ 14 = rw (shift-receive f seq ack window len rst) s.shift in
    elim (disposition_cases d len) [
      | inl e ↦ rw e (record {
        ledger = Ledger-Accepted f g received len (lem.0 e) s.ledger;
        edge = EdgeAhead-Accepted f g len (lem.0 e) s.edge;
        shift = shift;
      })
      | inr ne ↦ rw (refused-taken f seq ack window len rst ne) (record {
        ledger = Ledger-same f g received (received + 0) (lem.1 ne) (omega arith) s.ledger;
        edge = EdgeAhead-same f g (lem.1 ne) s.edge;
        shift = shift;
      })
    ]

window_step-same :
    (f : Flow) (budget : ℕ)
    → let g = (set_advertised_window f budget).1 in
      (g.local_window_shift ≡ f.local_window_shift)
      × (g.namespace_acked ≡ f.namespace_acked)
      × (g.namespace_fin ≡ f.namespace_fin)
      × (g.namespace_initial ≡ f.namespace_initial)
      × (g.upstream_submitted ≡ f.upstream_submitted)
      × (g.upstream_acked ≡ f.upstream_acked)
unfolding set_advertised_window
window_step-same f budget = ground arith

promises-Sound :
    (f : Flow) (received budget : ℕ)
    → Sound f received
    → Sound (set_advertised_window f budget).1 received
promises-Sound f received budget s =
    let (_, edge, at) = advertised_window-set_advertised_window f budget s.edge s.shift in
    let same = window_step-same f budget in
    record {
      ledger = ground (arith, at, same, s.ledger);
      edge = edge;
      shift = ground (arith, same);
    }

sends-Sound :
    (f : Flow) (received : ℕ) (plan : SendPlan)
    → Sound f received
    → Sound (commit_send f plan) received
unfolding commit_send
sends-Sound f received plan s = ground (arith, s.ledger, s.edge)

acknowledges-Sound :
    (f : Flow) (received bytes : ℕ)
    → Sound f received
    → Sound (record_upstream_ack f bytes).1 received
unfolding record_upstream_ack
acknowledges-Sound f received bytes s = record {
  ledger = (record_upstream_ack_lem f bytes received s.ledger).2;
  edge = ground (arith, s.edge);
  shift = ground arith;
}

Step-Sound : {f g : Flow} {m n : ℕ} → Step f m g n → Sound f m → Sound g n
unfolding record_upstream_submitted
Step-Sound {f} {g} {m} (receives seq ack window len rst) s =
    receives-Sound f m seq ack window len rst s
Step-Sound {f} {g} {m} (submits n h small) s = record {
  ledger = (record_upstream_submitted-Ledger f n m s.ledger h small).0;
  edge = ground (arith, s.edge);
  shift = s.shift;
}
Step-Sound {f} {g} {m} (acknowledges bytes) s = acknowledges-Sound f m bytes s
Step-Sound {f} {g} {m} (promises budget) s = promises-Sound f m budget s
Step-Sound {f} {g} {m} (sends plan) s = sends-Sound f m plan s

-- From a flow that is sound (its counts are in order, its edge ahead, its shift at most 14),
-- through any segments without FIN and any submissions of received bytes, upstream
-- acknowledgments, window updates and sends, the flow stays sound: the namespace is told exactly
-- the bytes that the upstream acknowledged, which are never more than were submitted, nor those
-- more than were received.
pub Reach-Sound : {f : Flow} {m : ℕ} {g : Flow} {n : ℕ} → Reach f m g n → Sound f m → Sound g n
Reach-Sound start s = s
Reach-Sound (next r st) s = Step-Sound st (Reach-Sound r s)
