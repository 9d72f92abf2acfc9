-- ===== src/Udp/Tests.antt =====
-- An engine of two flows through a datagram, a removal and the end of a flow.
use yayatht.Base.{ℕ, ◌≤◌}
use yayatht.Base.{◌≡◌, subst, ◌↔◌, true, false}
use yayatht.Base.{none, some, List, [], ◌∷◌, arith, if◌then◌else◌}
use yayatht.Base.{lookup, remove, insert}
use yayatht.Base.{◌+◌, ◌*◌, is_some, refl}
use yayatht.Net.{SocketAddr, v4}
use yayatht.Flows.Token.{FlowId}
use yayatht.Flows.Table.{FlowTable, Slot, fresh_slot, with_capacity, contains, same_id}
use yayatht.Flows.Table as Table
use yayatht.Udp.Engine.{
  FlowKey, Flow, ok, Engine, association, flow, has_association, fresh_flow, new, expires_at,
  id_for_key, active_flows, active_associations, AssociationKey, TimeoutClass, timeout_class,
  accept_inserted, accept_keyed, accept_routed, remove_flow, is_due, expire,
}
use yayatht.Udp.Engine.Inv.{Inv}
use yayatht.Udp.Engine.Start.{new-Inv}
use yayatht.Udp.Engine.Accepts.{Accepted, accept_routed-Accepted}
use yayatht.Udp.Engine.Removes.{Outcome, remove_flow-Outcome}
use yayatht.Udp.Engine.Expiry.{expire-flows}
use yayatht.Udp.Engine.History.{Run, starts, accepts, Run-consistent}
use yayatht.Udp.Engine.Activity.{outbound, inbound, record_all, ClassOf, seconds, record_all-flow}

abbrev here : SocketAddr
here = v4 (192 ∷ 0 ∷ 2 ∷ 2 ∷ []) 40000

abbrev there : SocketAddr
there = v4 (198 ∷ 51 ∷ 100 ∷ 1 ∷ []) 7

abbrev key : FlowKey
key = record { source = here; target = there }

abbrev zeroth : FlowId
zeroth = record { slot = 0; generation = 1 }

abbrev first : Flow
first = fresh_flow key there 5

abbrev no_flows : FlowTable Flow
no_flows = record { slots = fresh_slot ∷ fresh_slot ∷ []; free = 0 ∷ 1 ∷ []; deferred = [] }

abbrev empty : Engine
empty = record {
  flows = no_flows;
  by_key = [];
  associations = [];
  max_flows = 2;
  max_associations = 1;
}

abbrev one_flow : Engine
one_flow = record {
  flows = record {
    slots = record { generation = 1; value = some first; retired = false } ∷ fresh_slot ∷ [];
    free = 1 ∷ [];
    deferred = [];
  };
  by_key = (key, zeroth) ∷ [];
  associations = (association key, record { flow_count = 1 }) ∷ [];
  max_flows = 2;
  max_associations = 1;
}

empty-Inv : Inv empty
unfolding new with_capacity
empty-Inv =
    let made = new-Inv 2 1 (omega arith) in subst Inv {x = made.0} (ground (arith, made.1)) made.2

accepts_first :
    accept_routed empty key there 5
    ≡ some (ok (record { id = zeroth; created = true; association_created = true }), one_flow)
unfolding accept_routed accept_keyed accept_inserted Table.insert Table.insert_from Table.insert_in
    lookup insert remove
accepts_first = ground arith

one_flow-Inv : Inv one_flow
one_flow-Inv =
    let a = accept_routed-Accepted empty key there 5 empty-Inv in
    subst Inv (ground (arith, a.returns, accepts_first)) a.after_Inv

accept_routed-Accepted_example : Accepted one_flow key there 9 (accept_routed one_flow key there 9)
accept_routed-Accepted_example = accept_routed-Accepted one_flow key there 9 one_flow-Inv

remove_flow-Outcome_example : Outcome one_flow zeroth (some first) (remove_flow one_flow zeroth)
unfolding Table.get
remove_flow-Outcome_example = remove_flow-Outcome one_flow zeroth one_flow-Inv

expire-flows_example :
    let now : ℕ = 30_000_000_005 in
    (expired : List FlowId) × (g : Engine) × (expire one_flow now ≡ some (expired, g))
    × ((id : FlowId) → contains expired id ≡ is_due now (flow one_flow id))
    × ((id : FlowId)
        → flow g id ≡ (if is_due now (flow one_flow id) then none else flow one_flow id))
    × Inv g
expire-flows_example = expire-flows one_flow 30_000_000_005 one_flow-Inv

made : new 2 1 ≡ some empty
unfolding new with_capacity
made = refl

one_flow-Run : Run 2 1 one_flow
one_flow-Run =
    accepts key there 5 (ok (record { id = zeroth; created = true; association_created = true }))
      (starts made) accepts_first

Run-consistent_example :
    ((a : AssociationKey)
      → (has_association one_flow a ≡ true)
        ↔ ((id : FlowId) × (f : Flow) × (flow one_flow id ≡ some f) × (association f.key ≡ a)))
    × ((k : FlowKey) (id : FlowId)
        → (id_for_key one_flow k ≡ some id)
          ↔ ((f : Flow) × (flow one_flow id ≡ some f) × (f.key ≡ k)))
    × (active_flows one_flow ≤ 2)
    × (active_associations one_flow ≤ 1)
    × ((k : FlowKey) (reply_source : SocketAddr) (now : ℕ)
        → is_some (accept_routed one_flow k reply_source now) ≡ true)
    × ((id : FlowId) → is_some (remove_flow one_flow id) ≡ true)
    × ((now : ℕ) → is_some (expire one_flow now) ≡ true)
Run-consistent_example = Run-consistent 2 1 one_flow (omega arith) one_flow-Run

found : flow one_flow zeroth ≡ some first
unfolding Table.get
found = refl

-- A datagram back, one more out and one more back: a stream, which ends two minutes after the last.
record_all-flow_example :
    (g : Flow) × (flow (record_all one_flow zeroth (inbound 7 ∷ outbound 8 ∷ inbound 9 ∷ [])) zeroth
      ≡ some g)
    × ((other : FlowId)
        → same_id other zeroth ≡ false
        → flow (record_all one_flow zeroth (inbound 7 ∷ outbound 8 ∷ inbound 9 ∷ [])) other
          ≡ flow one_flow other)
    × (g.key ≡ key)
    × (g.outbound_datagrams ≡ 2)
    × (g.inbound_datagrams ≡ 2)
    × (g.last_activity ≡ 9)
    × ((c : TimeoutClass) → (timeout_class g ≡ c) ↔ ClassOf 7 2 2 c)
    × ((c : TimeoutClass) → ClassOf 7 2 2 c → expires_at g ≡ 9 + seconds c * 1_000_000_000)
    × (expires_at first ≤ expires_at g)
record_all-flow_example =
    record_all-flow one_flow zeroth first (inbound 7 ∷ outbound 8 ∷ inbound 9 ∷ []) found
      (omega arith) (omega arith) (omega arith, (omega arith, (omega arith, tt)))
