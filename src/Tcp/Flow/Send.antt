-- ===== src/Tcp/Flow/Send.antt =====
-- The sending side of a flow: bytes in flight to the namespace, and what its acknowledgments take
-- off the upstream socket.
use yayatht.Base.{ℕ, ◌+◌, ◌^◌, ◌≤◌, ◌<◌}
use yayatht.Base.{◌≡◌, ◌≢◌, ◌↔◌, Bool, true, false, ◌&&◌}
use yayatht.Base.{none, some, arith, leb, if◌then◌else◌}
use yayatht.Base.{IsU32, add32}
use yayatht.Tcp.Sequence.{before, after, before_or_equal, distance}
use yayatht.Tcp.Flow.{
  Flow, SendPlan, unacked_to_namespace, plan_send, commit_send, acknowledge_local,
}

-- Less than 2 ^ 31 sequence numbers are in flight.
pub record InFlight (f : Flow) : Type 0 where
  pub unacked_word : IsU32 f.local_unacked
  pub next_word : IsU32 f.local_next
  pub short : unacked_to_namespace f < 2 ^ 31

-- With less than 2 ^ 31 sequence numbers in flight and a peer window below 2 ^ 31, a planned
-- send that is committed puts exactly its bytes and its FIN in flight, from the next sequence
-- number on, and a send with bytes is planned only within the peer's window.
pub commit_send-plan_send :
    (f : Flow) (len : ℕ) (fin : Bool) (plan : SendPlan)
    → InFlight f
    → f.peer_window < 2 ^ 31
    → plan_send f len fin ≡ some plan
    → let g = commit_send f plan in
      (plan.sequence ≡ f.local_next)
      × (unacked_to_namespace g ≡ unacked_to_namespace f + len + (if fin then 1 else 0))
      × (0 < len → unacked_to_namespace f + len ≤ f.peer_window)
unfolding plan_send commit_send unacked_to_namespace distance
commit_send-plan_send f len true plan v w e = ground (arith, v.short)
commit_send-plan_send f len false plan v w e = ground (arith, v.short)

-- A send is refused exactly when it is longer than the window that is left.
pub plan_send-none_iff :
    (f : Flow) (len : ℕ) (fin : Bool)
    → (plan_send f len fin ≡ none) ↔ (f.peer_window < unacked_to_namespace f + len) × (0 < len)
unfolding plan_send unacked_to_namespace
plan_send-none_iff f len fin = ground arith

-- With less than 2 ^ 31 sequence numbers in flight, an acknowledgment is taken exactly when it
-- covers something in flight, and nothing beyond it; any other, old or ahead of what was sent,
-- leaves the acknowledged point where it is. This holds of every acknowledgment number but the
-- one 2 ^ 31 away from the acknowledged point.
pub acknowledge_local_lem :
    (f : Flow) (ack : ℕ)
    → InFlight f
    → IsU32 ack
    → distance f.local_unacked ack ≢ 2 ^ 31
    → let g = acknowledge_local f ack in
      let covered = distance f.local_unacked ack in
      (g.local_unacked
        ≡ (if leb 1 covered && leb covered (unacked_to_namespace f) then ack else f.local_unacked))
      × (unacked_to_namespace g ≤ unacked_to_namespace f)
      × (g.local_next ≡ f.local_next)
unfolding acknowledge_local unacked_to_namespace after before before_or_equal distance
acknowledge_local_lem f ack v h apart = ground (arith, v.short)

-- The acknowledgment number 2 ^ 31 beyond the acknowledged point counts both as before and as after
-- it: with nothing in flight it is taken, and 2 ^ 31 bytes that were never sent seem to be in flight.
pub acknowledge_local_opposite :
    (f : Flow)
    → IsU32 f.local_next
    → f.local_unacked ≡ f.local_next
    → let ack = add32 f.local_next (2 ^ 31) in
      let g = acknowledge_local f ack in
      (unacked_to_namespace f ≡ 0) × (g.local_unacked ≡ ack) × (unacked_to_namespace g ≡ 2 ^ 31)
unfolding acknowledge_local unacked_to_namespace after before before_or_equal distance
acknowledge_local_opposite f h e = ground arith
