-- ===== src/Tcp/Flow.antt =====
-- `Flow` of crates/tcp-adapter/src/flow.rs: the TCP endpoint that a namespace connection talks to.
-- Sequence numbers are 32-bit words; `usize` is 64 bits wide.
mod Tests
pub mod Window
pub mod Send
pub mod Payload
pub mod Upstream
pub mod History
pub mod Fin
pub mod Receive
use yayatht.Base.{ℕ, zero, suc, ◌+◌, ◌-◌, ◌*◌, ◌/◌, ◌%◌, ◌^◌, ◌≤◌, ◌<◌, min, max, bit_and, bit_or}
use yayatht.Base.{
  ◌≡◌, refl, sym, ap, subst, ◌∙◌, ◌≢◌, ◌↔◌, ◌⊎◌, inl, inr, Bool, true, false, not, ◌&&◌, ◌||◌,
}
use yayatht.Base.{
  Option, none, some, List, [], ◌∷◌, ◌++◌, map, arith, ltb, leb, ◌==◌, if◌then◌else◌, ==_iff,
  Bool-cases, Option-cases, is_some,
}
use yayatht.Base.{
  length, get_elem?, get_or, set, take, drop, replicate, slice, splice, All, length-append,
  length-set, get_elem?-set_self, get_elem?-set_ne, get_elem?-lt, length-take, length-drop,
  length-replicate, length-splice, splice-nil, splice-splice, splice-zero, take-append, drop-append,
  take_all, drop-drop,
}
use yayatht.Base.{
  u8_max, u16_max, u32_max, u64_max, IsU8, IsU16, IsU32, u8, u16, u32, u64, add32, sub32, ◌<<<◌,
  ◌>>>◌, be16, bytes16, be32, bytes32, be16-bytes16, be32-bytes32,
}
use yayatht.Base.{
  zero-bit_or, bit_or-zero, bit_and-zero, bit_or_cut, bit_and_cut, bit_or_fields, bit_and_mask,
  bit_or_insert, bit_and_field,
}
use mathlib.Core.Option
use yayatht.Tcp.Sequence.{before, after, before_or_equal, distance}

pub data State : Type 0 where
  connecting syn_received established namespace_fin_received socket_fin_received closing : State
  time_wait closed : State

pub data ReceiveDisposition : Type 0 where
  in_order : ℕ → Bool → ReceiveDisposition
  duplicate out_of_order outside_window reset invalid : ReceiveDisposition

pub record SendPlan : Type 0 where
  pub sequence : ℕ
  pub acknowledgment : ℕ
  pub length : ℕ
  pub syn : Bool
  pub fin : Bool

pub record Flow : Type 0 where
  pub state : State
  pub namespace_initial : ℕ
  pub namespace_next : ℕ
  pub namespace_acked : ℕ
  pub local_initial : ℕ
  pub local_unacked : ℕ
  pub local_next : ℕ
  pub peer_window : ℕ
  pub peer_window_shift : ℕ
  pub receive_edge : ℕ
  pub local_window_shift : ℕ
  pub mss : ℕ
  pub upstream_ack_baseline : ℕ
  pub upstream_submitted : ℕ
  pub upstream_acked : ℕ
  pub namespace_fin : Bool
  pub socket_fin : Bool
  pub local_fin_sequence : Option ℕ

pub is_syn_received : State → Bool
is_syn_received syn_received = true
is_syn_received _ = false

pub new_flow : ℕ → ℕ → ℕ → ℕ → ℕ → Flow
new_flow namespace_initial local_initial mss peer_window_shift local_window_shift = record {
  state = connecting;
  namespace_initial = namespace_initial;
  namespace_next = add32 namespace_initial 1;
  namespace_acked = add32 namespace_initial 1;
  local_initial = local_initial;
  local_unacked = local_initial;
  local_next = local_initial;
  peer_window = u16_max;
  peer_window_shift = peer_window_shift;
  receive_edge = add32 (add32 namespace_initial 1) u16_max;
  local_window_shift = local_window_shift;
  mss = mss;
  upstream_ack_baseline = 0;
  upstream_submitted = 0;
  upstream_acked = 0;
  namespace_fin = false;
  socket_fin = false;
  local_fin_sequence = none;
}

pub advertised_window : Flow → ℕ
advertised_window f =
    if after f.receive_edge f.namespace_next then distance f.namespace_next f.receive_edge else 0

-- For window shifts below 32: a larger one, which panics or is masked in the source, gives 0 here.
pub max_advertised_window : Flow → ℕ
max_advertised_window f = u32 (u16_max <<< f.local_window_shift)

pub window_field : Flow → Bool → ℕ
window_field f syn =
    let from_ack =
      if after f.receive_edge f.namespace_acked
      then distance f.namespace_acked f.receive_edge
      else 0 in
    let scaled = if syn then from_ack else from_ack >>> f.local_window_shift in
    if leb scaled u16_max then scaled else u16_max

pub set_advertised_window : Flow → ℕ → Bool × Flow
set_advertised_window f wanted =
    let budget = min wanted (max_advertised_window f) in
    let candidate = add32 f.namespace_next budget in
    if not (after candidate f.receive_edge)
    then (false, f)
    else let f' = record f { receive_edge = candidate } in
      (not (window_field f' false == window_field f false), f')

pub unacked_to_namespace : Flow → ℕ
unacked_to_namespace f = distance f.local_unacked f.local_next

pub available_namespace_window : Flow → ℕ
unfolding unacked_to_namespace
available_namespace_window f = f.peer_window - unacked_to_namespace f

pub socket_connected : Flow → ℕ → SendPlan × Flow
socket_connected f bytes_acked = (
  record {
    sequence = f.local_initial;
    acknowledgment = f.namespace_next;
    length = 0;
    syn = true;
    fin = false;
  },
  record f {
    upstream_ack_baseline = bytes_acked;
    state = syn_received;
    local_next = add32 f.local_initial 1;
  },
)

-- `after(acknowledgment, fin_sequence)` where a FIN was sent.
pub acks_fin : Option ℕ → ℕ → Bool
acks_fin none acknowledgment = false
acks_fin (some fin_sequence) acknowledgment = after acknowledgment fin_sequence

pub acknowledge_local : Flow → ℕ → Flow
unfolding acks_fin
acknowledge_local f acknowledgment =
    let f' =
      if after acknowledgment f.local_unacked && before_or_equal acknowledgment f.local_next
      then record f { local_unacked = acknowledgment }
      else f in
    if acks_fin f'.local_fin_sequence acknowledgment && f'.namespace_fin
    then record f' { state = time_wait }
    else f'

pub take_ack : Flow → Option ℕ → Flow
take_ack f none = f
take_ack f (some ack) =
    let f' = acknowledge_local f ack in
    if is_syn_received f'.state && ack == add32 f'.local_initial 1
    then record f' { state = established }
    else f'

-- What `receive` does to the state of a flow whose FIN has just been accepted.
pub fin_state : Flow → State
fin_state f =
    if f.socket_fin && f.local_unacked == f.local_next
    then time_wait
    else if f.socket_fin
    then closing
    else namespace_fin_received

pub accept_fin : Flow → Flow
unfolding fin_state
accept_fin f =
    let f' = record f { namespace_next = add32 f.namespace_next 1; namespace_fin = true } in
    let f'' =
      if f'.upstream_acked == f'.upstream_submitted
      then record f' { namespace_acked = f'.namespace_next }
      else f' in
    record f'' { state = fin_state f'' }

-- `receive` once the reset, the window update and the acknowledgment are dealt with.
pub receive_data : Flow → ℕ → ℕ → Bool → ReceiveDisposition × Flow
receive_data f sequence_number payload_len fin =
    if not (sequence_number == f.namespace_next)
    then (if before sequence_number f.namespace_next then duplicate else out_of_order, f)
    else if ltb (advertised_window f) payload_len
    then (outside_window, f)
    else if payload_len == 0 && not fin
    then (in_order 0 false, f)
    else if ltb u32_max payload_len
    then (invalid, f)
    else let f' = record f { namespace_next = add32 f.namespace_next payload_len } in
      (in_order payload_len fin, if fin then accept_fin f' else f')

pub receive : Flow → ℕ → Option ℕ → ℕ → ℕ → Bool → Bool → ReceiveDisposition × Flow
unfolding receive_data take_ack
receive f sequence_number acknowledgment window payload_len fin rst =
    if rst
    then (reset, record f { state = closed })
    else receive_data
        (take_ack (record f { peer_window = u32 (window <<< f.peer_window_shift) }) acknowledgment)
        sequence_number payload_len fin

pub record_upstream_submitted : Flow → ℕ → Flow
record_upstream_submitted f length = record f {
  upstream_submitted = min (f.upstream_submitted + length) u64_max;
}

pub upstream_unacked : Flow → ℕ
upstream_unacked f = f.upstream_submitted - f.upstream_acked

pub record_upstream_ack : Flow → ℕ → Bool × Flow
record_upstream_ack f bytes_acked =
    let acknowledged = min (bytes_acked - f.upstream_ack_baseline) f.upstream_submitted in
    if leb acknowledged f.upstream_acked
    then (false, f)
    else let acked = add32 (add32 f.namespace_initial 1) (u32 acknowledged) in
      (
        true,
        record f {
          upstream_acked = acknowledged;
          namespace_acked =
              if f.namespace_fin && acknowledged == f.upstream_submitted
              then add32 acked 1
              else acked;
        },
      )

pub plan_send : Flow → ℕ → Bool → Option SendPlan
unfolding available_namespace_window
plan_send f length fin =
    if ltb (available_namespace_window f) length
    then none
    else some (record {
      sequence = f.local_next;
      acknowledgment = f.namespace_acked;
      length = length;
      syn = false;
      fin = fin;
    })

pub commit_send : Flow → SendPlan → Flow
commit_send f plan =
    let f' = record f { local_next = add32 f.local_next (u32 plan.length) } in
    if plan.fin
    then record f' {
      local_fin_sequence = some f'.local_next;
      local_next = add32 f'.local_next 1;
      socket_fin = true;
      state = if f'.namespace_fin then closing else socket_fin_received;
    }
    else f'

pub newly_acked_payload : Flow → ℕ → ℕ
newly_acked_payload f previous_ack =
    let payload_start = add32 f.local_initial 1 in
    let payload_end = Option.get_or f.local_fin_sequence f.local_next in
    let start = if before previous_ack payload_start then payload_start else previous_ack in
    let end = if after f.local_unacked payload_end then payload_end else f.local_unacked in
    if after end start then distance start end else 0

pub mark_socket_fin : Flow → Flow
mark_socket_fin f = record f { socket_fin = true }

pub close : Flow → Flow
close f = record f { state = closed }
