-- ===== src/Udp/Engine/Accepts.antt =====
-- `accept_routed`: what each result means, and that the engine stays in order.
use yayatht.Base.{ℕ, ◌≤◌, ◌<◌}
use yayatht.Base.{◌≡◌, refl, sym, ap, subst, ◌∙◌, ◌≢◌, ◌⊎◌, inl, inr, true, false, not, ◌&&◌, ◌||◌}
use yayatht.Base.{Option, none, some, arith, leb, if◌then◌else◌, if-cases}
use yayatht.Base.{length, get_elem?}
use yayatht.Base.{
  remove, insert, lookup-insert_self, lookup-insert_ne, insert-Distinct, length-insert-le,
  remove-insert_new,
}
use mathlib.Core.Option
use yayatht.Net.{SocketAddr}
use yayatht.Flows.Token.{FlowId}
use yayatht.Flows.Table.{FlowTable, Inserted, stored, refused, get, get_mut, same_id}
use yayatht.Flows.Table as Table
use yayatht.Flows.Table.Inv.{vacancy}
use yayatht.Flows.Table.Inv as TableInv
use yayatht.Flows.Table.Keep.{insert-Ok}
use yayatht.Flows.Table.Fresh.{get-insert, insert-refused}
use yayatht.Flows.Table.Remove.{same_id-cases, get-get_mut, deferred-insert}
use yayatht.Udp.Engine.{
  FlowKey, Flow, AcceptError, AcceptResult, Engine, association, flow, id_for_key, has_association,
  AssociationKey-discrete, FlowKey-discrete, family_mismatch, reply_route_conflict, flow_limit,
  association_limit, ok, err, sent, record_outbound, routes_elsewhere, fresh_flow, accept_inserted,
  accept_keyed, same_family, accept_routed,
}
use yayatht.Udp.Engine.Inv.{Inv, Linked}
use yayatht.Udp.Engine.Records.{IsKeyed, get_mut-Inv_udp}
use yayatht.Udp.Engine.Counts.{opened, increment-Counted}

-- The engine knew the key: its flow sent one more datagram, and nothing else changed.
pub record Reused (e g : Engine) (key : FlowKey) (now : ℕ) (id : FlowId) : Type 0 where
  pub known : id_for_key e key ≡ some id
  pub counted : flow g id ≡ Option.map (sent now) (flow e id)
  pub others : (other : FlowId) → same_id other id ≡ false → flow g other ≡ flow e other
  pub same_keys : g.by_key ≡ e.by_key
  pub same_associations : g.associations ≡ e.associations

-- The key is new: it has a new flow under a new id, and every other key and id stands as before.
pub record Created (e g : Engine) (key : FlowKey) (reply_source : SocketAddr) (now : ℕ)
    (id : FlowId) : Type 0 where
  pub unknown : id_for_key e key ≡ none
  pub unused : flow e id ≡ none
  pub made : flow g id ≡ some (fresh_flow key reply_source now)
  pub named : id_for_key g key ≡ some id
  pub others : (other : FlowId) → same_id other id ≡ false → flow g other ≡ flow e other
  pub other_keys : (k : FlowKey) → k ≢ key → id_for_key g k ≡ id_for_key e k

-- Why a datagram is refused.
abbrev pub Refusal : Engine → FlowKey → SocketAddr → AcceptError → Type 0
Refusal e key reply_source family_mismatch =
    (same_family key.source key.target && same_family key.source reply_source) ≡ false
Refusal e key reply_source reply_route_conflict =
    (id : FlowId) × (id_for_key e key ≡ some id)
    × (routes_elsewhere reply_source (flow e id) ≡ true)
Refusal e key reply_source flow_limit =
    (id_for_key e key ≡ none)
    × ((e.max_flows ≤ length e.by_key) ⊎ ((s : ℕ) → vacancy (get_elem? e.flows.slots s) ≡ 0))
Refusal e key reply_source association_limit =
    (id_for_key e key ≡ none)
    × (has_association e (association key) ≡ false)
    × (e.max_associations ≤ length e.associations)

abbrev pub Outcome : Engine → FlowKey → SocketAddr → ℕ → AcceptResult → Engine → Type 0
Outcome e key reply_source now (err reason) g = (g ≡ e) × Refusal e key reply_source reason
Outcome e key reply_source now (ok a) g =
    if a.created
    then Created e g key reply_source now a.id
      × (a.association_created ≡ not (has_association e (association key)))
    else Reused e g key now a.id × (a.association_created ≡ false)

pub record Accepted (e : Engine) (key : FlowKey) (reply_source : SocketAddr) (now : ℕ)
    (returned : Option (AcceptResult × Engine)) : Type 0 where
  pub result : AcceptResult
  pub after : Engine
  pub returns : returned ≡ some (result, after)
  pub after_Inv : Inv after
  pub outcome : Outcome e key reply_source now result after

refuse :
    (e : Engine) (key : FlowKey) (reply_source : SocketAddr) (now : ℕ) (reason : AcceptError)
    → Inv e
    → Refusal e key reply_source reason
    → Accepted e key reply_source now (some (err reason, e))
refuse e key reply_source now reason v why = record {
  result = err reason;
  after = e;
  returns = refl;
  after_Inv = v;
  outcome = (refl, why);
}

accept_inserted-Accepted :
    (e : Engine) (key : FlowKey) (reply_source : SocketAddr) (now : ℕ) (r : Inserted Flow)
    (u : FlowTable Flow)
    → Inv e
    → id_for_key e key ≡ none
    → length e.by_key < e.max_flows
    → (not (has_association e (association key)) && leb e.max_associations (length e.associations))
      ≡ false
    → Table.insert e.flows (fresh_flow key reply_source now) ≡ some (r, u)
    → TableInv.Inv u
    → Accepted e key reply_source now (
        accept_inserted e key
          (not (has_association e (association key)))
          (opened e (association key))
          (some (r, u)))
unfolding accept_inserted
accept_inserted-Accepted e key reply_source now (refused back) u v new below room made w =
    let (_, same, full) =
      insert-refused e.flows u (fresh_flow key reply_source now) back v.table made in
    let b = association key in
    let undone : (if not (has_association e b)
          then remove AssociationKey-discrete b (opened e b)
          else opened e b)
        ≡ e.associations =
      ground (
        arith,
        remove-insert_new AssociationKey-discrete b (record { flow_count = 0 }) e.associations,
      ) in
    rw (same, undone) (refuse e key reply_source now flow_limit v (new, inr full))
accept_inserted-Accepted e key reply_source now (stored id) u v new below room made w =
    let c = increment-Counted e key id v new room in
    let (hit, unused, others) =
      get-insert e.flows u (fresh_flow key reply_source now) id v.table made in
    let created = not (has_association e (association key)) in
    let m = insert FlowKey-discrete key id e.by_key in
    let g : Engine = record e { flows = u; by_key = m; associations = c.after } in
    record {
      result = ok (record { id = id; created = true; association_created = created });
      after = g;
      returns = rw c.returns refl;
      after_Inv = record {
        table = w;
        settled =
            deferred-insert e.flows u (fresh_flow key reply_source now) (stored id) made
            ∙ v.settled;
        distinct_keys = insert-Distinct FlowKey-discrete key id e.by_key v.distinct_keys;
        distinct_associations = c.counts.distinct;
        linked = λ k i found. elim (FlowKey-discrete k key) [
          | yes q ↦
              let same : id ≡ i =
                ground (arith, lookup-insert_self FlowKey-discrete key id e.by_key, q) in
              subst (λ j. Linked k (get u j)) same (rw hit (sym q))
          | no q ↦
              let was : Linked k (flow e i) =
                v.linked k i
                  (sym (lookup-insert_ne FlowKey-discrete key k id e.by_key q) ∙ found) in
              elim (same_id-cases i id) [
                | inl same ↦ absurd (subst (Linked k) (ap (flow e) same ∙ unused) was)
                | inr apart ↦ rw (others i apart) was
              ]
        ];
        owned = λ i f found. elim (same_id-cases i id) [
          | inl same ↦
              let it : f.key ≡ key = ground (arith, hit, same) in
              rw (it, same) (lookup-insert_self FlowKey-discrete key id e.by_key)
          | inr apart ↦
              let was = v.owned i f (sym (others i apart) ∙ found) in
              let q : f.key ≢ key = λ it. ground (arith, was, new, it) in
              lookup-insert_ne FlowKey-discrete key f.key id e.by_key q ∙ was
        ];
        counted = c.counts.agrees;
        flows_bound = omega (arith, length-insert-le FlowKey-discrete key id e.by_key, below);
        associations_bound = c.bound;
      };
      outcome = (
        record {
          unknown = new;
          unused = unused;
          made = hit;
          named = lookup-insert_self FlowKey-discrete key id e.by_key;
          others = others;
          other_keys = λ k ne. lookup-insert_ne FlowKey-discrete key k id e.by_key ne;
        },
        refl,
      );
    }

accept_keyed-Accepted :
    (e : Engine) (key : FlowKey) (reply_source : SocketAddr) (now : ℕ) (o : Option FlowId)
    → Inv e
    → id_for_key e key ≡ o
    → Accepted e key reply_source now (accept_keyed e key reply_source now o)
unfolding accept_keyed
accept_keyed-Accepted e key reply_source now (some id) v known =
    if-cases (Accepted e key reply_source now) (routes_elsewhere reply_source (flow e id))
      (λ t. refuse e key reply_source now reply_route_conflict v (id, known, t))
      (λ t. record {
        result = ok (record { id = id; created = false; association_created = false });
        after = record_outbound e id now;
        returns = refl;
        after_Inv = get_mut-Inv_udp e id (sent now) (unfold IsKeyed in (λ x. refl)) v;
        outcome = (
          record {
            known = known;
            counted = get-get_mut e.flows id (sent now) id ∙ ground arith;
            others = λ other ne. rw (get-get_mut e.flows id (sent now) other, ne) refl;
            same_keys = refl;
            same_associations = refl;
          },
          refl,
        );
      })
accept_keyed-Accepted e key reply_source now none v new =
    let P = Accepted e key reply_source now in
    if-cases P (leb e.max_flows (length e.by_key))
      (λ t. refuse e key reply_source now flow_limit v (new, inl (ground arith)))
      (λ t.
        if-cases P
          (not (has_association e (association key))
            && leb e.max_associations (length e.associations))
          (λ u. refuse e key reply_source now association_limit v (new, ground arith, ground arith))
          (λ u.
            let i = insert-Ok e.flows (fresh_flow key reply_source now) v.table in
            rw i.returns (
              accept_inserted-Accepted e key reply_source now i.result i.after v new (ground arith)
                u i.returns i.after_Inv)))

-- On an engine in order `accept_routed` returns, with no failed `expect`, and leaves the engine in
-- order. A refusal changes nothing and has its reason: another address family, a known key with another
-- reply source, no room for a flow, no room for an association. A known key sends one more datagram on
-- its flow. A new key gets a new flow under an id that found nothing, and every other key and id stands
-- as before.
pub accept_routed-Accepted :
    (e : Engine) (key : FlowKey) (reply_source : SocketAddr) (now : ℕ)
    → Inv e
    → Accepted e key reply_source now (accept_routed e key reply_source now)
unfolding accept_routed
accept_routed-Accepted e key reply_source now v =
    if-cases (Accepted e key reply_source now)
      (not (same_family key.source key.target) || not (same_family key.source reply_source))
      (λ t. refuse e key reply_source now family_mismatch v (ground arith))
      (λ t. accept_keyed-Accepted e key reply_source now (id_for_key e key) v refl)
