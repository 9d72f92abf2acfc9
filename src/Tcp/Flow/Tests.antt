-- ===== src/Tcp/Flow/Tests.antt =====
-- A flow in the middle of a connection, on concrete numbers.
use yayatht.Base.{ℕ, ◌+◌, ◌-◌, ◌*◌, ◌^◌, ◌≤◌, ◌<◌, min, max}
use yayatht.Base.{◌≡◌, refl, ◌≢◌, ◌↔◌, true, false}
use yayatht.Base.{Option, none, some, arith, ltb, leb, if◌then◌else◌}
use yayatht.Base.{u16_max, add32}
use yayatht.Tcp.Sequence.{before, after, before_or_equal, distance, before_offsets}
use yayatht.Tcp.Flow.{
  Flow, State, in_order, SendPlan, advertised_window, set_advertised_window, unacked_to_namespace,
  acknowledge_local, receive, record_upstream_submitted, record_upstream_ack, plan_send,
  commit_send,
}
use yayatht.Tcp.Flow.Window.{EdgeAhead, advertised_window-set_advertised_window}
use yayatht.Tcp.Flow.Receive.{SameReceived, Accepted, receive_in_order_iff, receive_lem}
use yayatht.Tcp.Flow.Upstream.{Ledger}
use yayatht.Tcp.Flow.Send.{InFlight, commit_send-plan_send, acknowledge_local_opposite}
use yayatht.Tcp.Flow.Fin.{handed_on, finished_retreats}
use yayatht.Tcp.Flow.History.{submits, acknowledges, start, next, Sound, Reach-Sound}

-- Ten bytes received, eight submitted, four acknowledged; ten bytes in flight to the namespace.
abbrev middle : Flow
middle = record {
  state = State.established;
  namespace_initial = 100;
  namespace_next = 111;
  namespace_acked = 105;
  local_initial = 500;
  local_unacked = 501;
  local_next = 511;
  peer_window = 1000;
  peer_window_shift = 7;
  receive_edge = 4111;
  local_window_shift = 7;
  mss = 1460;
  upstream_ack_baseline = 0;
  upstream_submitted = 8;
  upstream_acked = 4;
  namespace_fin = false;
  socket_fin = false;
  local_fin_sequence = none;
}

-- The same flow with everything submitted and acknowledged, and nothing in flight.
abbrev idle_flow : Flow
idle_flow = record middle {
  namespace_acked = 111;
  local_unacked = 511;
  upstream_submitted = 10;
  upstream_acked = 10;
}

middle-EdgeAhead : EdgeAhead middle
unfolding distance
middle-EdgeAhead = record { next_word = omega arith; edge_word = omega arith; ahead = omega arith }

idle-EdgeAhead : EdgeAhead idle_flow
unfolding distance
idle-EdgeAhead = record { next_word = omega arith; edge_word = omega arith; ahead = omega arith }

middle-Ledger : Ledger middle 10
middle-Ledger = record {
  initial_word = omega arith;
  expected = refl;
  acked_point = refl;
  acked_le = omega arith;
  submitted_le = omega arith;
  open_end = refl;
}

idle-Ledger : Ledger idle_flow 10
idle-Ledger = record {
  initial_word = omega arith;
  expected = refl;
  acked_point = refl;
  acked_le = omega arith;
  submitted_le = omega arith;
  open_end = refl;
}

idle_window : advertised_window idle_flow ≡ 4000
unfolding advertised_window after before distance
idle_window = refl

middle-InFlight : InFlight middle
unfolding unacked_to_namespace distance
middle-InFlight = record {
  unacked_word = omega arith;
  next_word = omega arith;
  short = omega arith;
}

middle-Sound : Sound middle 10
middle-Sound = record { ledger = middle-Ledger; edge = middle-EdgeAhead; shift = omega arith }

abbrev ten_more : SendPlan
ten_more = record { sequence = 511; acknowledgment = 105; length = 10; syn = false; fin = true }

Reach-Sound_example : Sound (record_upstream_ack (record_upstream_submitted middle 2) 9).1 10
Reach-Sound_example =
    Reach-Sound (next (next start (submits 2 (omega arith) (omega arith))) (acknowledges 9))
      middle-Sound

receive_lem_example :
    let f = middle in
    let seq : ℕ = 111 in
    let ack : Option ℕ = some 505 in
    let window : ℕ = 9 in
    let len : ℕ = 20 in
    let fin = false in
    let rst = false in
    let (d, g) = receive f seq ack window len fin rst in
    (d ≡ in_order len fin → Accepted f g len fin) × (d ≢ in_order len fin → SameReceived f g)
receive_lem_example = receive_lem middle 111 (some 505) 9 20 false false middle-EdgeAhead

receive_in_order_iff_example :
    let f = middle in
    let seq : ℕ = 111 in
    let ack : Option ℕ = some 505 in
    let window : ℕ = 9 in
    let len : ℕ = 20 in
    let fin = false in
    let rst = false in
    ((receive f seq ack window len fin rst).0 ≡ in_order len fin)
    ↔ ((rst ≡ false) × (seq ≡ f.namespace_next) × (len ≤ advertised_window f))
receive_in_order_iff_example =
    receive_in_order_iff middle 111 (some 505) 9 20 false false middle-EdgeAhead

commit_send-plan_send_example :
    let f = middle in
    let len : ℕ = 10 in
    let fin = true in
    let plan = ten_more in
    let g = commit_send f plan in
    (plan.sequence ≡ f.local_next)
    × (unacked_to_namespace g ≡ unacked_to_namespace f + len + (if fin then 1 else 0))
    × (0 < len → unacked_to_namespace f + len ≤ f.peer_window)
unfolding plan_send unacked_to_namespace distance
commit_send-plan_send_example =
    commit_send-plan_send middle 10 true ten_more middle-InFlight (omega arith) refl

acknowledge_local_opposite_example :
    let f = idle_flow in
    let ack = add32 f.local_next (2 ^ 31) in
    let g = acknowledge_local f ack in
    (unacked_to_namespace f ≡ 0) × (g.local_unacked ≡ ack) × (unacked_to_namespace g ≡ 2 ^ 31)
acknowledge_local_opposite_example = acknowledge_local_opposite idle_flow (omega arith) refl

advertised_window-set_advertised_window_example :
    let f = middle in
    let budget : ℕ = 9000 in
    let g = (set_advertised_window f budget).1 in
    (advertised_window g
      ≡ max (advertised_window f) (min budget (u16_max * 2 ^ f.local_window_shift)))
    × EdgeAhead g
    × (g.namespace_next ≡ f.namespace_next)
advertised_window-set_advertised_window_example =
    advertised_window-set_advertised_window middle 9000 middle-EdgeAhead (omega arith)

finished_retreats_example :
    let f = idle_flow in
    let acknowledgment = some idle_flow.local_next in
    let window : ℕ = 9 in
    let len : ℕ = 20 in
    let part : ℕ = 5 in
    let g = handed_on f acknowledgment window len in
    let h = (record_upstream_ack g (f.upstream_ack_baseline + f.upstream_submitted + part)).1 in
    ((receive f f.namespace_next acknowledgment window len true false).0 ≡ in_order len true)
    × (before h.namespace_acked g.namespace_acked ≡ true)
finished_retreats_example =
    finished_retreats idle_flow (some idle_flow.local_next) 10 9 20 5 idle-Ledger idle-EdgeAhead
      refl refl (omega arith) (omega arith) (omega arith) (omega (arith, idle_window))

before_offsets_example :
    let start : ℕ = 2 ^ 32 - 5 in
    let i : ℕ = 3 in
    let j : ℕ = 9 in
    (before (add32 start i) (add32 start j) ≡ ltb i j)
    × (after (add32 start i) (add32 start j) ≡ ltb j i)
    × (before_or_equal (add32 start i) (add32 start j) ≡ leb i j)
    × (i ≤ j → distance (add32 start i) (add32 start j) ≡ j - i)
before_offsets_example = before_offsets (2 ^ 32 - 5) 3 9 (omega arith) (omega arith) (omega arith)
