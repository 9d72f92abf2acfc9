-- ===== src/Udp/Engine/History.antt =====
-- Histories of a UDP engine: what stands after any sequence of its operations.
use yayatht.Base.{ℕ, ◌^◌, ◌≤◌}
use yayatht.Base.{◌≡◌, refl, ap, subst, ◌∙◌, ◌↔◌, inl, inr, Bool, true}
use yayatht.Base.{Option, none, some, List, arith, Option-cases, is_some}
use yayatht.Net.{SocketAddr}
use yayatht.Flows.Token.{FlowId}
use yayatht.Udp.Engine.{
  AssociationKey, FlowKey, Flow, Engine, AcceptResult, new, association, flow, id_for_key,
  has_association, accept_routed, record_outbound, record_inbound, remove_flow, expire, sent,
  received, active_flows, active_associations,
}
use yayatht.Udp.Engine.Inv.{Inv, Linked}
use yayatht.Udp.Engine.Start.{new-Inv, has_association_iff}
use yayatht.Udp.Engine.Accepts.{accept_routed-Accepted}
use yayatht.Udp.Engine.Records.{IsKeyed, get_mut-Inv_udp}
use yayatht.Udp.Engine.Removes.{Outcome, remove_flow-Outcome}
use yayatht.Udp.Engine.Expiry.{expire-flows}
use yayatht.Udp.Engine.Limits.{
  new-limits, SameLimits, accept_routed-SameLimits, remove_flow-SameLimits, expire-SameLimits,
}

-- The engines that a sequence of operations makes out of a new one.
pub data Run (max_flows max_associations : ℕ) : Engine → Type 0 where
  starts : {e : Engine} → new max_flows max_associations ≡ some e → Run max_flows max_associations e
  accepts :
      {e g : Engine} (key : FlowKey) (reply_source : SocketAddr) (now : ℕ) (result : AcceptResult)
      → Run max_flows max_associations e
      → accept_routed e key reply_source now ≡ some (result, g)
      → Run max_flows max_associations g
  sends :
      {e : Engine} (id : FlowId) (now : ℕ)
      → Run max_flows max_associations e
      → Run max_flows max_associations (record_outbound e id now)
  receives :
      {e : Engine} (id : FlowId) (now : ℕ)
      → Run max_flows max_associations e
      → Run max_flows max_associations (record_inbound e id now)
  removes :
      {e g : Engine} (id : FlowId) (removed : Bool)
      → Run max_flows max_associations e
      → remove_flow e id ≡ some (removed, g)
      → Run max_flows max_associations g
  expires :
      {e g : Engine} (now : ℕ) (expired : List FlowId)
      → Run max_flows max_associations e
      → expire e now ≡ some (expired, g)
      → Run max_flows max_associations g

-- In order, and with the limits it was made with.
record Sound (max_flows max_associations : ℕ) (e : Engine) : Type 0 where
  ordered : Inv e
  flow_limit_is : e.max_flows ≡ max_flows
  association_limit_is : e.max_associations ≡ max_associations

carried : (m n : ℕ) (e g : Engine) → Sound m n e → Inv g → SameLimits e g → Sound m n g
carried m n e g s v l = record {
  ordered = v;
  flow_limit_is = l.0 ∙ s.flow_limit_is;
  association_limit_is = l.1 ∙ s.association_limit_is;
}

new-Sound : (m n : ℕ) (e : Engine) → m ≤ 2 ^ 20 → new m n ≡ some e → Sound m n e
new-Sound m n e h made =
    let (e', returns, v, _) = new-Inv m n h in
    let (flows, associations) = new-limits m n e made in
    record {
      ordered = subst Inv (ground (arith, returns, made)) v;
      flow_limit_is = flows;
      association_limit_is = associations;
    }

remove_flow-Inv :
    (e : Engine) (id : FlowId) (o : Option Flow) (b : Bool) (g : Engine)
    → Inv e
    → Outcome e id o (remove_flow e id)
    → remove_flow e id ≡ some (b, g)
    → Inv g
remove_flow-Inv e id none b g v outcome done = subst Inv (ground (arith, outcome, done)) v
remove_flow-Inv e id (some f) b g v outcome done =
    subst Inv (ground (arith, outcome.returns, done)) outcome.after_Inv

remove_flow-returns :
    (e : Engine) (id : FlowId) (o : Option Flow)
    → Outcome e id o (remove_flow e id)
    → is_some (remove_flow e id) ≡ true
remove_flow-returns e id none outcome = ap is_some outcome
remove_flow-returns e id (some f) outcome = ap is_some outcome.returns

Run-Sound : (m n : ℕ) (e : Engine) → m ≤ 2 ^ 20 → Run m n e → Sound m n e
Run-Sound m n e h (starts made) = new-Sound m n e h made
Run-Sound m n g h (accepts {e = e} key reply_source now result run done) =
    let s = Run-Sound m n e h run in
    let a = accept_routed-Accepted e key reply_source now s.ordered in
    carried m n e g s (subst Inv (ground (arith, a.returns, done)) a.after_Inv)
      (accept_routed-SameLimits e key reply_source now result g done)
Run-Sound m n g h (sends {e = e} id now run) =
    let s = Run-Sound m n e h run in
    carried m n e g s (get_mut-Inv_udp e id (sent now) (unfold IsKeyed in (λ x. refl)) s.ordered)
      (refl, refl)
Run-Sound m n g h (receives {e = e} id now run) =
    let s = Run-Sound m n e h run in
    carried m n e g s
      (get_mut-Inv_udp e id (received now) (unfold IsKeyed in (λ x. refl)) s.ordered) (refl, refl)
Run-Sound m n g h (removes {e = e} id removed run done) =
    let s = Run-Sound m n e h run in
    carried m n e g s
      (remove_flow-Inv e id (flow e id) removed g s.ordered (remove_flow-Outcome e id s.ordered)
        done)
      (remove_flow-SameLimits e id removed g done)
Run-Sound m n g h (expires {e = e} now expired run done) =
    let s = Run-Sound m n e h run in
    let (ids, after, returns, _, _, v) = expire-flows e now s.ordered in
    carried m n e g s (subst Inv (ground (arith, returns, done)) v)
      (expire-SameLimits e now expired g done)

id_for_key_iff :
    (e : Engine) (key : FlowKey) (id : FlowId)
    → Inv e
    → (id_for_key e key ≡ some id) ↔ ((f : Flow) × (flow e id ≡ some f) × (f.key ≡ key))
id_for_key_iff e key id v = (
  λ known. elim (Option-cases (flow e id)) [
    | inl missing ↦ absurd (subst (Linked key) missing (v.linked key id known))
    | inr (f, found) ↦ (f, found, subst (Linked key) found (v.linked key id known))
  ],
  λ (f, found, its). subst (λ k. id_for_key e k ≡ some id) its (v.owned id f found),
)

-- An engine made for 2 ^ 20 flows at most, after any sequence of datagrams accepted or refused, sent
-- and received, removals and expiries: an association stands exactly if some flow has it, a key is
-- known under an id exactly if the id finds a flow of that key, neither the flows nor the
-- associations exceed the limits that the engine was made with, and `accept_routed`, `remove` and
-- `expire` return whatever their arguments, with no failed `expect` or assertion.
pub Run-consistent :
    (max_flows max_associations : ℕ) (e : Engine)
    → max_flows ≤ 2 ^ 20
    → Run max_flows max_associations e
    → ((a : AssociationKey)
        → (has_association e a ≡ true)
          ↔ ((id : FlowId) × (f : Flow) × (flow e id ≡ some f) × (association f.key ≡ a)))
      × ((key : FlowKey) (id : FlowId)
          → (id_for_key e key ≡ some id) ↔ ((f : Flow) × (flow e id ≡ some f) × (f.key ≡ key)))
      × (active_flows e ≤ max_flows)
      × (active_associations e ≤ max_associations)
      × ((key : FlowKey) (reply_source : SocketAddr) (now : ℕ)
          → is_some (accept_routed e key reply_source now) ≡ true)
      × ((id : FlowId) → is_some (remove_flow e id) ≡ true)
      × ((now : ℕ) → is_some (expire e now) ≡ true)
Run-consistent max_flows max_associations e h run =
    let s = Run-Sound max_flows max_associations e h run in
    (
      λ a. has_association_iff e a s.ordered,
      λ key id. id_for_key_iff e key id s.ordered,
      omega (arith, s.ordered.flows_bound, s.flow_limit_is),
      omega (arith, s.ordered.associations_bound, s.association_limit_is),
      λ key reply_source now.
          ap is_some (accept_routed-Accepted e key reply_source now s.ordered).returns,
      λ id. remove_flow-returns e id (flow e id) (remove_flow-Outcome e id s.ordered),
      λ now. ap is_some (expire-flows e now s.ordered).2,
    )
