-- ===== src/Reactor/Segment.antt =====
-- `SentSegment` and the queue of sent segments of crates/dataplane/src/reactor.rs, and the backoff of
-- its timers. The sum of `sequence_len` does not reach 2 ^ 32 for a segment of a frame.
pub mod Queue
pub mod Backoff
use yayatht.Base.{ℕ, zero, suc, ◌+◌, ◌-◌, ◌*◌, ◌/◌, ◌%◌, ◌^◌, ◌≤◌, ◌<◌, min, max, bit_and, bit_or}
use yayatht.Base.{
  ◌≡◌, refl, sym, ap, subst, ◌∙◌, ◌≢◌, ◌↔◌, ◌⊎◌, inl, inr, Bool, true, false, not, ◌&&◌, ◌||◌,
}
use yayatht.Base.{
  Option, none, some, List, [], ◌∷◌, ◌++◌, map, arith, ltb, leb, ◌==◌, if◌then◌else◌, ==_iff,
  Bool-cases, Option-cases, is_some, if-cases,
}
use yayatht.Base.{
  length, get_elem?, get_or, set, take, drop, replicate, slice, splice, All, length-append,
  length-set, get_elem?-set_self, get_elem?-set_ne, get_elem?-lt, length-take, length-drop,
  length-replicate, length-splice, splice-nil, splice-splice, splice-zero, take-append, drop-append,
  take_all, drop-drop, splice_over, take-append_more, append_assoc, set-splice, drop-after,
  word16-after, byte_at, word16, append_nil, drop-append_less, take-drop,
}
use yayatht.Base.{
  lookup, remove, insert, lookup-remove_self, lookup-remove_ne, lookup-insert_self,
  lookup-insert_ne, length-remove-le, length-remove-lt, remove_absent, Distinct, remove-Distinct,
  insert-Distinct, length-remove, length-insert, length-insert-le, remove-insert_new, ℕ_discrete,
  ◌>>=◌, >>=-eq-some,
}
use yayatht.Base.{
  u8_max, u16_max, u32_max, u64_max, IsU8, IsU16, IsU32, u8, u16, u32, u64, add32, sub32, ◌<<<◌,
  ◌>>>◌, be16, bytes16, be32, bytes32, be16-bytes16, be32-bytes32,
}
use yayatht.Base.{
  zero-bit_or, bit_or-zero, bit_and-zero, bit_or_cut, bit_and_cut, bit_or_fields, bit_and_mask,
  bit_or_insert, bit_and_field,
}
use yayatht.Tcp.Sequence.{before, after, distance}
use yayatht.Packet.Tcp.{TcpFlags}

pub record SentSegment : Type 0 where
  pub sequence : ℕ
  pub payload_len : ℕ
  pub syn : Bool
  pub fin : Bool
  pub last_sent : ℕ
  pub retransmit_timeout : ℕ
  pub retries : ℕ

abbrev pub one_if : Bool → ℕ
one_if b = if b then 1 else 0

abbrev pub sequence_len : SentSegment → ℕ
sequence_len s = u32 s.payload_len + one_if s.syn + one_if s.fin

abbrev pub end_sequence : SentSegment → ℕ
end_sequence s = add32 s.sequence (sequence_len s)

-- The bookkeeping of a partial acknowledgment of so many sequence numbers.
unfoldable pub trim : SentSegment → ℕ → ℕ → SentSegment
trim s acknowledgment acknowledged =
    let past_syn = if s.syn && ltb 0 acknowledged then acknowledged - 1 else acknowledged in
    let payload = min past_syn s.payload_len in
    let past_payload = past_syn - payload in
    record s {
      sequence = acknowledgment;
      syn = s.syn && not (ltb 0 acknowledged);
      payload_len = s.payload_len - payload;
      fin = s.fin && not (ltb 0 past_payload);
    }

-- Whether the segment is acknowledged whole, and the segment afterwards.
unfoldable pub acknowledge : SentSegment → ℕ → Bool × SentSegment
unfolding trim
acknowledge s acknowledgment =
    if not (after acknowledgment s.sequence)
    then (false, s)
    else if not (before acknowledgment (end_sequence s))
    then (true, s)
    else (false, trim s acknowledgment (distance s.sequence acknowledgment))

abbrev pub flags : SentSegment → TcpFlags
flags s = record { fin = s.fin; syn = s.syn; rst = false; psh = ltb 0 s.payload_len; ack = true }

abbrev pub max_retries : ℕ
max_retries = 5

abbrev pub max_timeout : ℕ
max_timeout = 8_000_000_000

abbrev pub record_timeout_retransmit : SentSegment → ℕ → SentSegment
record_timeout_retransmit s now = record s {
  last_sent = now;
  retries = min (s.retries + 1) u8_max;
  retransmit_timeout = min (s.retransmit_timeout * 2) max_timeout;
}

abbrev pub retries_exhausted : SentSegment → Bool
retries_exhausted s = leb max_retries s.retries

-- The loop that takes acknowledged segments off the front of the queue; `rest` is its next round.
unfoldable pub pop_acknowledged :
    List SentSegment → List SentSegment → Bool × SentSegment → List SentSegment
pop_acknowledged segments rest (whole, segment) = if whole then rest else segment ∷ segments

unfoldable pub acknowledge_segments : List SentSegment → ℕ → List SentSegment
unfolding pop_acknowledged
acknowledge_segments [] acknowledgment = []
acknowledge_segments (segment ∷ segments) acknowledgment =
    pop_acknowledged segments (acknowledge_segments segments acknowledgment)
      (acknowledge segment acknowledgment)

pub record ZeroWindowProbe : Type 0 where
  pub deadline : ℕ
  pub interval : ℕ

abbrev pub probe_initial : ℕ
probe_initial = 1_000_000_000

abbrev pub probe_max : ℕ
probe_max = 8_000_000_000

abbrev pub new_probe : ℕ → ZeroWindowProbe
new_probe now = record { deadline = now + probe_initial; interval = probe_initial }

abbrev pub advance : ZeroWindowProbe → ℕ → ZeroWindowProbe
advance p now =
    let interval = min (p.interval * 2) probe_max in
    record p { interval = interval; deadline = now + interval }
