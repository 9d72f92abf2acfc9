-- ===== src/Udp/Engine/Records.antt =====
-- `record_outbound` and `record_inbound`: a flow's activity, its counters and its timeout.
use yayatht.Base.{◌≡◌, refl, sym, subst, ◌∙◌, Bool, true, false}
use yayatht.Base.{Option, none, some, arith, if◌then◌else◌}
use mathlib.Core.Option
use yayatht.Flows.Token.{FlowId}
use yayatht.Flows.Table.{get_mut, same_id}
use yayatht.Flows.Table.History.{get_mut-Inv}
use yayatht.Flows.Table.Remove.{get-get_mut, deferred-get_mut}
use yayatht.Udp.Engine.{FlowKey, Flow, Engine, flow, id_for_key}
use yayatht.Udp.Engine.Inv.{Inv, Linked}

-- A change to a flow that keeps its key.
unfoldable pub IsKeyed : (Flow → Flow) → Type 0
IsKeyed f = (x : Flow) → (f x).key ≡ x.key

map-Linked :
    (f : Flow → Flow) (key : FlowKey) (b : Bool) (o : Option Flow)
    → IsKeyed f
    → Linked key o
    → Linked key (if b then Option.map f o else o)
unfolding IsKeyed
map-Linked f key b none k l = absurd l
map-Linked f key true (some x) k l = k x ∙ l
map-Linked f key false (some x) k l = l

map-some :
    (f : Flow → Flow) (b : Bool) (o : Option Flow) (y : Flow)
    → IsKeyed f
    → (if b then Option.map f o else o) ≡ some y
    → (x : Flow) × (o ≡ some x) × (x.key ≡ y.key)
unfolding IsKeyed
map-some f true none y k e = absurd cc
map-some f false none y k e = absurd cc
map-some f true (some x) y k e = (x, refl, ground (arith, k x))
map-some f false (some x) y k e = (x, refl, ground arith)

-- A change of one flow that keeps its key keeps the engine in order.
pub get_mut-Inv_udp :
    (e : Engine) (id : FlowId) (f : Flow → Flow)
    → IsKeyed f
    → Inv e
    → Inv (record e { flows = get_mut e.flows id f })
get_mut-Inv_udp e id f k v = record {
  table = get_mut-Inv e.flows id f v.table;
  settled = deferred-get_mut e.flows id f ∙ v.settled;
  distinct_keys = v.distinct_keys;
  distinct_associations = v.distinct_associations;
  linked = λ key i found.
      rw (get-get_mut e.flows id f i)
        (map-Linked f key (same_id i id) (flow e i) k (v.linked key i found));
  owned = λ i y found.
      let (x, was, same) =
        map-some f (same_id i id) (flow e i) y k (sym (get-get_mut e.flows id f i) ∙ found) in
      subst (λ q. id_for_key e q ≡ some i) same (v.owned i x was);
  counted = v.counted;
  flows_bound = v.flows_bound;
  associations_bound = v.associations_bound;
}
