-- ===== src/Reactor/Budget.antt =====
-- The pending bytes of all flows in crates/dataplane/src/reactor.rs: what `enqueue_pending_payload`,
-- `consume_pending_payload` and `close_flow` do to the queues and to the global count. The entry of a
-- flow is cut down to its queue and to whether the flow is closed; a failed `expect` is `none`. Of
-- `fail_tcp_flow` only the call of `close_flow` is here: the reset that it sends is output.
pub mod Counted
use yayatht.Base.{ℕ, zero, suc, ◌+◌, ◌-◌, ◌*◌, ◌/◌, ◌%◌, ◌^◌, ◌≤◌, ◌<◌, min, max, bit_and, bit_or}
use yayatht.Base.{
  ◌≡◌, refl, sym, ap, subst, ◌∙◌, ◌≢◌, ◌↔◌, ◌⊎◌, inl, inr, Bool, true, false, not, ◌&&◌, ◌||◌,
}
use yayatht.Base.{
  Option, none, some, List, [], ◌∷◌, ◌++◌, map, arith, ltb, leb, ◌==◌, if◌then◌else◌, ==_iff,
  Bool-cases, Option-cases, is_some, if-cases,
}
use yayatht.Base.{
  length, get_elem?, get_or, set, take, drop, replicate, slice, splice, All, length-append,
  length-set, get_elem?-set_self, get_elem?-set_ne, get_elem?-lt, length-take, length-drop,
  length-replicate, length-splice, splice-nil, splice-splice, splice-zero, take-append, drop-append,
  take_all, drop-drop, splice_over, take-append_more, append_assoc, set-splice, drop-after,
  word16-after, byte_at, word16, append_nil, drop-append_less, take-drop, set-set, set_same,
}
use yayatht.Base.{
  lookup, remove, insert, lookup-remove_self, lookup-remove_ne, lookup-insert_self,
  lookup-insert_ne, length-remove-le, length-remove-lt, remove_absent, Distinct, remove-Distinct,
  insert-Distinct, length-remove, length-insert, length-insert-le, remove-insert_new, ℕ_discrete,
  ◌>>=◌, >>=-eq-some,
}
use yayatht.Base.{
  u8_max, u16_max, u32_max, u64_max, IsU8, IsU16, IsU32, u8, u16, u32, u64, add32, sub32, ◌<<<◌,
  ◌>>>◌, be16, bytes16, be32, bytes32, be16-bytes16, be32-bytes32,
}
use yayatht.Base.{
  zero-bit_or, bit_or-zero, bit_and-zero, bit_or_cut, bit_and_cut, bit_or_fields, bit_and_mask,
  bit_or_insert, bit_and_field,
}
use yayatht.Flows.Token.{FlowId}
use yayatht.Reactor.Pending.{PendingSocketQueue, remaining, push, consume}

pub record Entry : Type 0 where
  pub pending_socket : PendingSocketQueue
  pub closed : Bool

pub record Budget : Type 0 where
  pub entries : List (FlowId × Entry)
  pub max_pending_tcp_bytes : ℕ
  pub pending_socket_bytes : ℕ
  pub pending_pressure : Bool
  pub pending_pressure_dirty : Bool
  pub pending_tcp_bytes : ℕ
  pub peak_pending_tcp_bytes : ℕ
  pub pending_limit_hits : ℕ
  pub pending_high_water_events : ℕ

pub FlowId-discrete : Discrete FlowId
FlowId-discrete = hlevel ℕ_discrete

abbrev pub entry_of : Budget → FlowId → Option Entry
entry_of b id = lookup FlowId-discrete id b.entries

unfoldable pub pending_pressure_state : Bool → ℕ → ℕ → Bool
pending_pressure_state current bytes limit =
    let high = min (limit * 7) u64_max / 8 in
    let low = min (limit * 3) u64_max / 4 in if current then ltb low bytes else leb high bytes

-- `pressured` is the new state.
unfoldable pub note_pressure : Budget → Bool → Budget
note_pressure b pressured =
    if (if b.pending_pressure then pressured else not pressured) then b else record b {
      pending_pressure = pressured;
      pending_pressure_dirty = true;
      pending_high_water_events = b.pending_high_water_events + (if pressured then 1 else 0);
    }

unfoldable pub update_pending_pressure_state : Budget → Budget
unfolding note_pressure pending_pressure_state
update_pending_pressure_state b =
    note_pressure b
      (pending_pressure_state b.pending_pressure b.pending_socket_bytes b.max_pending_tcp_bytes)

-- The queue of a flow and the global count, replaced.
unfoldable pub account : Budget → FlowId → Entry → ℕ → Budget
account b id entry bytes = record b {
  entries = insert FlowId-discrete id entry b.entries;
  pending_socket_bytes = bytes;
  pending_tcp_bytes = bytes;
}

-- What `close_flow` does to the pending bytes.
unfoldable pub close_found : Budget → FlowId → Option Entry → Budget
unfolding update_pending_pressure_state account
close_found b id none = b
close_found b id (some entry) = update_pending_pressure_state (
    account b id (record entry { closed = true })
      (b.pending_socket_bytes - entry.pending_socket.bytes))

unfoldable pub close : Budget → FlowId → Budget
unfolding close_found
close b id = close_found b id (entry_of b id)

-- `none` is the error `pending socket accounting mismatch`.
unfoldable pub enqueue_pushed :
    Budget → FlowId → Entry → List ℕ → Option PendingSocketQueue → Option (Bool × Budget)
unfolding update_pending_pressure_state account
enqueue_pushed b id entry payload none = none
enqueue_pushed b id entry payload (some queue) =
    let bytes = b.pending_socket_bytes + length payload in
    let peak = max b.peak_pending_tcp_bytes bytes in
    some (
      true,
      update_pending_pressure_state (
          account (record b { peak_pending_tcp_bytes = peak }) id
            (record entry { pending_socket = queue }) bytes),
    )

unfoldable pub enqueue_found : Budget → FlowId → List ℕ → Option Entry → Option (Bool × Budget)
unfolding enqueue_pushed close
enqueue_found b id payload none = none
enqueue_found b id payload (some entry) =
    if ltb (remaining entry.pending_socket) (length payload)
      || ltb (b.max_pending_tcp_bytes - b.pending_socket_bytes) (length payload)
    then some (false, close (record b { pending_limit_hits = b.pending_limit_hits + 1 }) id)
    else enqueue_pushed b id entry payload (push entry.pending_socket payload)

unfoldable pub enqueue_pending_payload : Budget → FlowId → List ℕ → Option (Bool × Budget)
unfolding enqueue_found
enqueue_pending_payload b id payload = enqueue_found b id payload (entry_of b id)

unfoldable pub consume_taken :
    Budget → FlowId → Entry → Option (ℕ × PendingSocketQueue) → Option (ℕ × Budget)
unfolding update_pending_pressure_state account
consume_taken b id entry none = none
consume_taken b id entry (some (consumed, queue)) = some (
  consumed,
  update_pending_pressure_state
      (account b id (record entry { pending_socket = queue }) (b.pending_socket_bytes - consumed)),
)

unfoldable pub consume_found : Budget → FlowId → ℕ → Option Entry → Option (ℕ × Budget)
unfolding consume_taken
consume_found b id len none = none
consume_found b id len (some entry) = consume_taken b id entry (consume entry.pending_socket len)

unfoldable pub consume_pending_payload : Budget → FlowId → ℕ → Option (ℕ × Budget)
unfolding consume_found
consume_pending_payload b id len = consume_found b id len (entry_of b id)
