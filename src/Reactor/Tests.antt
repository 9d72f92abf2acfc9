-- ===== src/Reactor/Tests.antt =====
-- A queue, segments and a pool on concrete values.
use yayatht.Base.{◌+◌, ◌≤◌}
use yayatht.Base.{◌≡◌, refl, ◌≢◌, true, false}
use yayatht.Base.{none, some, [], ◌∷◌, arith}
use yayatht.Base.{length, get_elem?}
use yayatht.Base.{u32_max}
use yayatht.Flows.Token.{FlowId}
use yayatht.Base.{lookup, subst}
use yayatht.Reactor.Budget.{Entry, Budget, FlowId-discrete, enqueue_pending_payload}
use yayatht.Reactor.Budget.Counted as Counted
use yayatht.Reactor.Budget.Counted.{IsOpen, Enqueued, enqueue_pending_payload-Enqueued}
use yayatht.Reactor.Pending.{PendingSocketQueue, push, consume, consume_from, consume_front}
use yayatht.Reactor.Pending.Stream.{contents, Inv, Run, starts, pushes, consumes, Run-stream}
use yayatht.Reactor.Segment.{SentSegment, acknowledge_segments}
use yayatht.Reactor.Segment.Queue.{Acknowledged, acknowledge_segments-Acknowledged}
use yayatht.Reactor.Pool.{FrameBuffer, BufferPool, available, acquire, release}
use yayatht.Reactor.Pool.Frames as Frames
use yayatht.Reactor.Pool.Frames.{acquire-release, new-Inv, acquire-Outcome}

abbrev two_chunks : PendingSocketQueue
two_chunks = record { chunks = (1 ∷ 2 ∷ 3 ∷ []) ∷ (4 ∷ []) ∷ []; bytes = 4; limit = 4 }

abbrev rest : PendingSocketQueue
rest = record { chunks = (3 ∷ []) ∷ (4 ∷ []) ∷ []; bytes = 2; limit = 4 }

history : Run 4 rest (1 ∷ 2 ∷ 3 ∷ 4 ∷ []) (1 ∷ 2 ∷ [])
unfolding push consume consume_from consume_front
history =
    consumes {q = two_chunks} 2 2 (pushes (4 ∷ []) (pushes (1 ∷ 2 ∷ 3 ∷ []) starts refl) refl) refl

Run-stream_example :
    (1 ∷ 2 ∷ contents rest ≡ 1 ∷ 2 ∷ 3 ∷ 4 ∷ [])
    × (length (contents rest) ≤ 4)
    × (rest.limit ≡ 4)
    × Inv rest
Run-stream_example = Run-stream 4 history

-- A SYN at the last sequence number, then data of three bytes, then a FIN.
abbrev syn : SentSegment
syn = record {
  sequence = u32_max;
  payload_len = 0;
  syn = true;
  fin = false;
  last_sent = 0;
  retransmit_timeout = 1;
  retries = 0;
}

abbrev data_fin : SentSegment
data_fin = record {
  sequence = 0;
  payload_len = 3;
  syn = false;
  fin = true;
  last_sent = 0;
  retransmit_timeout = 1;
  retries = 0;
}

acknowledge_segments-Acknowledged_example :
    Acknowledged u32_max 3 (syn ∷ data_fin ∷ []) (acknowledge_segments (syn ∷ data_fin ∷ []) 2)
acknowledge_segments-Acknowledged_example =
    acknowledge_segments-Acknowledged (syn ∷ data_fin ∷ []) u32_max 3 (omega arith)
      (refl, omega arith, omega arith, (refl, omega arith, omega arith, tt)) (omega arith)
      (omega arith)

abbrev frame : FrameBuffer
frame = record { bytes = 7 ∷ 8 ∷ []; len = 1 }

abbrev lent : BufferPool
lent = record { buffers = none ∷ some frame ∷ []; free = 1 ∷ [] }

lent-Inv : Frames.Inv lent
unfolding Frames.Inv
lent-Inv = λ index. ground arith

acquire-release_example :
    (get_elem? lent.buffers 0 ≡ some none
      → (q : BufferPool) × (release lent 0 frame ≡ some q)
        × Frames.Inv q
        × (available q ≡ available lent + 1)
        × (acquire q ≡ some (some (0, frame), lent)))
    × (get_elem? lent.buffers 0 ≢ some none → release lent 0 frame ≡ none)
acquire-release_example = acquire-release lent 0 frame lent-Inv

abbrev zeroth : FlowId
zeroth = record { slot = 0; generation = 1 }

abbrev waiting : Entry
waiting = record { pending_socket = rest; closed = false }

abbrev busy : Budget
busy = record {
  entries = (zeroth, waiting) ∷ [];
  max_pending_tcp_bytes = 10;
  pending_socket_bytes = 2;
  pending_pressure = false;
  pending_pressure_dirty = false;
  pending_tcp_bytes = 2;
  peak_pending_tcp_bytes = 4;
  pending_limit_hits = 0;
  pending_high_water_events = 0;
}

rest-Inv : Inv rest
rest-Inv = (Run-stream 4 history).3

busy-Inv : Counted.Inv busy
unfolding lookup
busy-Inv = record {
  distinct = (refl, tt);
  queues = λ id entry found. elim (FlowId-discrete id zeroth) [
    | yes q ↦
        let it : waiting ≡ entry = ground (arith, q, found) in
        subst (λ e. Inv e.pending_socket) it rest-Inv
    | no q ↦ absurd (ground (arith, q, found))
  ];
  counted = refl;
  bounded = omega arith;
  shown = refl;
  peak = omega arith;
}

zeroth-IsOpen : IsOpen busy zeroth waiting
unfolding lookup
zeroth-IsOpen = record { found = ground arith; still_open = refl }

enqueue_pending_payload-Enqueued_example :
    Enqueued busy zeroth waiting (5 ∷ 6 ∷ []) (enqueue_pending_payload busy zeroth (5 ∷ 6 ∷ []))
enqueue_pending_payload-Enqueued_example =
    enqueue_pending_payload-Enqueued busy zeroth waiting (5 ∷ 6 ∷ []) busy-Inv zeroth-IsOpen
