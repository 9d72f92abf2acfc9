-- ===== src/Reactor/Budget/Counted.antt =====
-- The global count is exactly what the open flows hold, and stays within the limit.
use yayatht.Base.{ℕ, ◌+◌, ◌-◌, ◌≤◌, max}
use yayatht.Base.{◌≡◌, refl, sym, ap, subst, ◌∙◌, ◌↔◌, Bool, true, false, not, ◌||◌}
use yayatht.Base.{Option, some, List, [], ◌∷◌, ◌++◌, arith, ltb, if◌then◌else◌, if-cases}
use yayatht.Base.{length, length-append, length-drop}
use yayatht.Base.{
  lookup, remove, insert, lookup-insert_self, lookup-insert_ne, remove_absent, Distinct,
  insert-Distinct,
}
use yayatht.Flows.Token.{FlowId}
use yayatht.Reactor.Pending.{remaining}
use yayatht.Reactor.Pending.Stream.{contents, Pushed, push_lem, Consumed, consume-Consumed}
use yayatht.Reactor.Pending.Stream as Queue
use yayatht.Reactor.Budget.{
  Entry, Budget, FlowId-discrete, entry_of, pending_pressure_state, note_pressure,
  update_pending_pressure_state, account, close_found, close, enqueue_pushed, enqueue_found,
  enqueue_pending_payload, consume_taken, consume_found, consume_pending_payload,
}

-- What a flow holds: a closed flow holds nothing.
abbrev pub open_bytes : Entry → ℕ
open_bytes entry = if entry.closed then 0 else entry.pending_socket.bytes

abbrev pub total : List (FlowId × Entry) → ℕ
total [] = 0
total ((id, entry) ∷ m) = open_bytes entry + total m

pub record Inv (b : Budget) : Type 0 where
  pub distinct : Distinct FlowId-discrete b.entries
  pub queues :
      (id : FlowId) (entry : Entry) → entry_of b id ≡ some entry → Queue.Inv entry.pending_socket
  pub counted : b.pending_socket_bytes ≡ total b.entries
  pub bounded : b.pending_socket_bytes ≤ b.max_pending_tcp_bytes
  pub shown : b.pending_tcp_bytes ≡ b.pending_socket_bytes
  pub peak : b.pending_socket_bytes ≤ b.peak_pending_tcp_bytes

-- A flow that is open, with its entry.
pub record IsOpen (b : Budget) (id : FlowId) (entry : Entry) : Type 0 where
  pub found : entry_of b id ≡ some entry
  pub still_open : entry.closed ≡ false

total-remove :
    (id : FlowId) (entry : Entry) (m : List (FlowId × Entry))
    → Distinct FlowId-discrete m
    → lookup FlowId-discrete id m ≡ some entry
    → total m ≡ open_bytes entry + total (remove FlowId-discrete id m)
unfolding lookup remove
total-remove id entry [] d h = absurd cc
total-remove id entry ((k, e) ∷ m) d h = elim (FlowId-discrete id k) [
  | yes q ↦ ground (arith, q, remove_absent FlowId-discrete k m d.0)
  | no q ↦ ground (arith, q, total-remove id entry m d.1)
]

note-Inv : (b : Budget) (pressured : Bool) → Inv b → Inv (note_pressure b pressured)
unfolding note_pressure
note-Inv b pressured v =
    if-cases Inv (if b.pending_pressure then pressured else not pressured) (λ t. v)
      (λ t. record {
        distinct = v.distinct;
        queues = v.queues;
        counted = v.counted;
        bounded = v.bounded;
        shown = v.shown;
        peak = v.peak;
      })

account-Inv :
    (b : Budget) (id : FlowId) (old new : Entry) (bytes : ℕ)
    → Inv b
    → IsOpen b id old
    → Queue.Inv new.pending_socket
    → bytes + old.pending_socket.bytes ≡ b.pending_socket_bytes + open_bytes new
    → bytes ≤ b.max_pending_tcp_bytes
    → bytes ≤ b.peak_pending_tcp_bytes
    → Inv (update_pending_pressure_state (account b id new bytes))
unfolding update_pending_pressure_state account insert
account-Inv b id old new bytes v o q sum le top =
    let rest = remove FlowId-discrete id b.entries in
    let split = total-remove id old b.entries v.distinct o.found in
    let held : open_bytes old ≡ old.pending_socket.bytes = rw o.still_open refl in
    let after = account b id new bytes in
    note-Inv after
      (pending_pressure_state after.pending_pressure after.pending_socket_bytes
        after.max_pending_tcp_bytes)
      (record {
        distinct = insert-Distinct FlowId-discrete id new b.entries v.distinct;
        queues = λ k entry found. elim (FlowId-discrete k id) [
          | yes same ↦
              let it : new ≡ entry =
                ground (arith, lookup-insert_self FlowId-discrete id new b.entries, found, same) in
              subst (λ e. Queue.Inv e.pending_socket) it q
          | no other ↦
              v.queues k entry
                (sym (lookup-insert_ne FlowId-discrete id k new b.entries other) ∙ found)
        ];
        counted = omega (arith, sum, split, held, v.counted);
        bounded = le;
        shown = refl;
        peak = top;
      })

held-le :
    (b : Budget) (id : FlowId) (entry : Entry)
    → Inv b
    → IsOpen b id entry
    → entry.pending_socket.bytes ≤ b.pending_socket_bytes
held-le b id entry v o =
    let held : open_bytes entry ≡ entry.pending_socket.bytes = rw o.still_open refl in
    omega (arith, total-remove id entry b.entries v.distinct o.found, held, v.counted)

-- An open flow that is closed gives back what it holds.
pub close-Inv :
    (b : Budget) (id : FlowId) (entry : Entry) → Inv b → IsOpen b id entry → Inv (close b id)
unfolding close close_found
close-Inv b id entry v o =
    let held = held-le b id entry v o in
    rw o.found (
      account-Inv b id entry (record entry { closed = true })
        (b.pending_socket_bytes - entry.pending_socket.bytes) v o (v.queues id entry o.found)
        (omega (arith, held)) (omega (arith, v.bounded)) (omega (arith, v.peak)))

update-entries : (b : Budget) → (update_pending_pressure_state b).entries ≡ b.entries
unfolding update_pending_pressure_state note_pressure
update-entries b =
    let p =
      pending_pressure_state b.pending_pressure b.pending_socket_bytes b.max_pending_tcp_bytes in
    if-cases (λ (c : Budget). c.entries ≡ b.entries) (if b.pending_pressure then p else not p)
      (λ t. refl) (λ t. refl)

-- The entry that an accounting step leaves.
account-entry :
    (b : Budget) (id : FlowId) (new : Entry) (bytes : ℕ)
    → entry_of (update_pending_pressure_state (account b id new bytes)) id ≡ some new
unfolding account
account-entry b id new bytes =
    ap (lookup FlowId-discrete id) (update-entries (account b id new bytes))
    ∙ lookup-insert_self FlowId-discrete id new b.entries

close-entry :
    (b : Budget) (id : FlowId) (entry : Entry)
    → entry_of b id ≡ some entry
    → entry_of (close b id) id ≡ some (record entry { closed = true })
unfolding close close_found
close-entry b id entry found = rw found (
    account-entry b id (record entry { closed = true })
      (b.pending_socket_bytes - entry.pending_socket.bytes))

-- A payload for an open flow: what became of it.
pub record Enqueued (b : Budget) (id : FlowId) (entry : Entry) (payload : List ℕ)
    (returned : Option (Bool × Budget)) : Type 0 where
  pub accepted : Bool
  pub after : Budget
  pub entry_after : Entry
  pub returns : returned ≡ some (accepted, after)
  pub after_Inv : Inv after
  pub stands : entry_of after id ≡ some entry_after
  pub fits : (accepted ≡ true) ↔ (
      (length payload ≤ remaining entry.pending_socket)
      × (b.pending_socket_bytes + length payload ≤ b.max_pending_tcp_bytes))
  pub appended :
      accepted ≡ true
      → (entry_after.closed ≡ false)
        × (contents entry_after.pending_socket ≡ contents entry.pending_socket ++ payload)
  pub dropped : accepted ≡ false → entry_after.closed ≡ true

enqueue_found-Enqueued :
    (b : Budget) (id : FlowId) (entry : Entry) (payload : List ℕ)
    → Inv b
    → IsOpen b id entry
    → Enqueued b id entry payload (enqueue_found b id payload (some entry))
unfolding enqueue_found enqueue_pushed
enqueue_found-Enqueued b id entry payload v o =
    if-cases (Enqueued b id entry payload)
      (ltb (remaining entry.pending_socket) (length payload)
        || ltb (b.max_pending_tcp_bytes - b.pending_socket_bytes) (length payload))
      (λ over.
        let c : Budget = record b { pending_limit_hits = b.pending_limit_hits + 1 } in
        let v' : Inv c = record {
          distinct = v.distinct;
          queues = v.queues;
          counted = v.counted;
          bounded = v.bounded;
          shown = v.shown;
          peak = v.peak;
        } in
        record {
          accepted = false;
          after = close c id;
          entry_after = record entry { closed = true };
          returns = refl;
          after_Inv =
              close-Inv c id entry v' (record { found = o.found; still_open = o.still_open });
          stands = close-entry c id entry o.found;
          fits = (λ t. absurd cc, λ f. absurd (ground (arith, over, f.0, f.1)));
          appended = λ t. absurd cc;
          dropped = λ t. refl;
        })
      (λ under.
        let queue_Inv = v.queues id entry o.found in
        let local : length payload ≤ remaining entry.pending_socket = ground (arith, under) in
        let room : length payload ≤ b.max_pending_tcp_bytes - b.pending_socket_bytes =
          ground (arith, under) in
        let (queue, pushed, p) =
          (push_lem entry.pending_socket payload queue_Inv).0
            (omega (arith, local, queue_Inv.counted, queue_Inv.bounded)) in
        let bytes = b.pending_socket_bytes + length payload in
        let c : Budget = record b { peak_pending_tcp_bytes = max b.peak_pending_tcp_bytes bytes } in
        let v' : Inv c = record {
          distinct = v.distinct;
          queues = v.queues;
          counted = v.counted;
          bounded = v.bounded;
          shown = v.shown;
          peak = omega (arith, v.peak);
        } in
        let new : Entry = record entry { pending_socket = queue } in
        let grown : open_bytes new ≡ entry.pending_socket.bytes + length payload = rw o.still_open (
          omega (
            arith,
            p.after_Inv.counted,
            ap length p.appended,
            length-append (contents entry.pending_socket) payload,
            queue_Inv.counted,
          )) in
        rw pushed (record {
          accepted = true;
          after = update_pending_pressure_state (account c id new bytes);
          entry_after = new;
          returns = refl;
          after_Inv =
              account-Inv c id entry new bytes v'
                (record { found = o.found; still_open = o.still_open }) p.after_Inv
                (omega (arith, grown)) (omega (arith, room, v.bounded)) (omega arith);
          stands = account-entry c id new bytes;
          fits = (λ t. (local, omega (arith, room, v.bounded)), λ f. refl);
          appended = λ t. (o.still_open, p.appended);
          dropped = λ t. absurd cc;
        }))

-- On a reactor whose count is exact, `enqueue_pending_payload` for an open flow returns, never with an
-- accounting mismatch. The payload is accepted exactly when it fits the flow's queue and the global
-- limit, and then stands behind what waited; else the flow is closed and gives back what it held. The
-- count stays exact and within the limit.
pub enqueue_pending_payload-Enqueued :
    (b : Budget) (id : FlowId) (entry : Entry) (payload : List ℕ)
    → Inv b
    → IsOpen b id entry
    → Enqueued b id entry payload (enqueue_pending_payload b id payload)
unfolding enqueue_pending_payload
enqueue_pending_payload-Enqueued b id entry payload v o =
    rw o.found (enqueue_found-Enqueued b id entry payload v o)

-- On a reactor whose count is exact, `consume_pending_payload` of an open flow returns: the count goes
-- down by what the flow's queue gave up, and stays exact.
pub consume_pending_payload-Inv :
    (b : Budget) (id : FlowId) (entry : Entry) (len : ℕ)
    → Inv b
    → IsOpen b id entry
    → (taken : ℕ) × (after : Budget) × (consume_pending_payload b id len ≡ some (taken, after))
      × Inv after
      × (taken ≤ len)
unfolding consume_pending_payload consume_found consume_taken
consume_pending_payload-Inv b id entry len v o =
    let queue_Inv = v.queues id entry o.found in
    let c = consume-Consumed entry.pending_socket len queue_Inv in
    let held = held-le b id entry v o in
    let new : Entry = record entry { pending_socket = c.after } in
    let shrunk : open_bytes new + c.taken ≡ entry.pending_socket.bytes = rw o.still_open (
      omega (
        arith,
        c.after_Inv.counted,
        ap length c.dropped,
        length-drop c.taken (contents entry.pending_socket),
        c.held,
        queue_Inv.counted,
      )) in
    (
      c.taken,
      update_pending_pressure_state (account b id new (b.pending_socket_bytes - c.taken)),
      rw (o.found, c.returns) refl,
      account-Inv b id entry new (b.pending_socket_bytes - c.taken) v o c.after_Inv
          (omega (arith, shrunk, held, c.held, queue_Inv.counted)) (omega (arith, v.bounded))
          (omega (arith, v.peak)),
      c.within,
    )
