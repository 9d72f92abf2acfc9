-- ===== src/Udp/Engine.antt =====
-- `Engine` of crates/dataplane/src/udp.rs over the flow table. A panic (a failed `expect` or
-- assertion) is `none`; times are nanoseconds since the program's start.
pub mod Inv
pub mod Counts
pub mod Accepts
pub mod Records
pub mod Activity
pub mod Start
pub mod Limits
pub mod Expiry
pub mod Removes
pub mod History
use yayatht.Base.{ℕ, zero, suc, ◌+◌, ◌-◌, ◌*◌, ◌/◌, ◌%◌, ◌^◌, ◌≤◌, ◌<◌, min, max, bit_and, bit_or}
use yayatht.Base.{
  ◌≡◌, refl, sym, ap, subst, ◌∙◌, ◌≢◌, ◌↔◌, ◌⊎◌, inl, inr, Bool, true, false, not, ◌&&◌, ◌||◌,
}
use yayatht.Base.{
  Option, none, some, List, [], ◌∷◌, ◌++◌, map, arith, ltb, leb, ◌==◌, if◌then◌else◌, ==_iff,
  Bool-cases, Option-cases, is_some, if-cases,
}
use yayatht.Base.{
  length, get_elem?, get_or, set, take, drop, replicate, slice, splice, All, length-append,
  length-set, get_elem?-set_self, get_elem?-set_ne, get_elem?-lt, length-take, length-drop,
  length-replicate, length-splice, splice-nil, splice-splice, splice-zero, take-append, drop-append,
  take_all, drop-drop, splice_over, take-append_more, append_assoc, set-splice, drop-after,
  word16-after, byte_at, word16,
}
use yayatht.Base.{
  lookup, remove, insert, lookup-remove_self, lookup-remove_ne, lookup-insert_self,
  lookup-insert_ne, length-remove-le, length-remove-lt, remove_absent, Distinct, remove-Distinct,
  insert-Distinct, length-remove, ℕ_discrete, ◌>>=◌, >>=-eq-some,
}
use yayatht.Base.{
  u8_max, u16_max, u32_max, u64_max, IsU8, IsU16, IsU32, u8, u16, u32, u64, add32, sub32, ◌<<<◌,
  ◌>>>◌, be16, bytes16, be32, bytes32, be16-bytes16, be32-bytes32,
}
use yayatht.Base.{
  zero-bit_or, bit_or-zero, bit_and-zero, bit_or_cut, bit_and_cut, bit_or_fields, bit_and_mask,
  bit_or_insert, bit_and_field,
}
use mathlib.Core.Logic.{ite}
use yayatht.Net.{SocketAddr}
use yayatht.Flows.Token.{FlowId}
use yayatht.Flows.Table.{
  FlowTable, Inserted, stored, refused, get, get_mut, active_ids, defer_remove, flush_deferred,
  with_capacity,
}
use yayatht.Flows.Table as Table
pub use yayatht.Udp.Flow.{
  dns_timeout, one_shot_timeout, stream_timeout, AssociationKey, FlowKey, association, TimeoutClass,
  duration, Flow, port, is_ipv4, timeout_class, expires_at, Accept, AcceptError, AcceptResult,
  SocketAddr-discrete, AssociationKey-discrete, FlowKey-discrete, dns, one_shot, stream,
  family_mismatch, reply_route_conflict, flow_limit, association_limit, ok, err,
}

pub record Association : Type 0 where
  pub flow_count : ℕ

pub record Engine : Type 0 where
  pub flows : FlowTable Flow
  pub by_key : List (FlowKey × FlowId)
  pub associations : List (AssociationKey × Association)
  pub max_flows : ℕ
  pub max_associations : ℕ

abbrev pub flow : Engine → FlowId → Option Flow
flow e id = get e.flows id

abbrev pub id_for_key : Engine → FlowKey → Option FlowId
id_for_key e key = lookup FlowKey-discrete key e.by_key

abbrev pub association_for : Engine → AssociationKey → Option Association
association_for e a = lookup AssociationKey-discrete a e.associations

abbrev pub has_association : Engine → AssociationKey → Bool
has_association e a = is_some (association_for e a)

unfoldable pub new : ℕ → ℕ → Option Engine
new max_flows max_associations = do
  flows ← with_capacity max_flows
  some (record {
    flows = flows;
    by_key = [];
    associations = [];
    max_flows = max_flows;
    max_associations = max_associations;
  })

abbrev pub sent : ℕ → Flow → Flow
sent now f = record f {
  last_activity = now;
  outbound_datagrams = min (f.outbound_datagrams + 1) u8_max;
}

abbrev pub received : ℕ → Flow → Flow
received now f = record f {
  last_activity = now;
  inbound_datagrams = min (f.inbound_datagrams + 1) u8_max;
}

abbrev pub record_outbound : Engine → FlowId → ℕ → Engine
record_outbound e id now = record e { flows = get_mut e.flows id (sent now) }

abbrev pub record_inbound : Engine → FlowId → ℕ → Engine
record_inbound e id now = record e { flows = get_mut e.flows id (received now) }

abbrev pub routes_elsewhere : SocketAddr → Option Flow → Bool
routes_elsewhere reply_source none = false
routes_elsewhere reply_source (some f) =
    ite (SocketAddr-discrete f.reply_source reply_source) false true

abbrev pub increment :
    AssociationKey
    → List (AssociationKey × Association)
    → Option Association
    → Option (List (AssociationKey × Association))
increment a associations none = none
increment a associations (some association) = some (
    insert AssociationKey-discrete a
      (record association { flow_count = association.flow_count + 1 }) associations)

abbrev pub fresh_flow : FlowKey → SocketAddr → ℕ → Flow
fresh_flow key reply_source now = record {
  key = key;
  reply_source = reply_source;
  last_activity = now;
  outbound_datagrams = 1;
  inbound_datagrams = 0;
}

-- From the insertion into the flow table on.
unfoldable pub accept_inserted :
    Engine
    → FlowKey
    → Bool
    → List (AssociationKey × Association)
    → Option (Inserted Flow × FlowTable Flow)
    → Option (AcceptResult × Engine)
accept_inserted e key association_created associations none = none
accept_inserted e key association_created associations (some (refused f, flows)) =
    let undone =
      if association_created
      then remove AssociationKey-discrete (association key) associations
      else associations in
    some (err flow_limit, record e { flows = flows; associations = undone })
accept_inserted e key association_created associations (some (stored id, flows)) = do
  counted ←
      increment (association key) associations
        (lookup AssociationKey-discrete (association key) associations)
  some (
    ok (record { id = id; created = true; association_created = association_created }),
    record e {
      flows = flows;
      by_key = insert FlowKey-discrete key id e.by_key;
      associations = counted;
    },
  )

-- `accept_routed` for a key and what `by_key` holds under it.
unfoldable pub accept_keyed :
    Engine → FlowKey → SocketAddr → ℕ → Option FlowId → Option (AcceptResult × Engine)
unfolding accept_inserted
accept_keyed e key reply_source now (some id) =
    if routes_elsewhere reply_source (flow e id)
    then some (err reply_route_conflict, e)
    else some (
      ok (record { id = id; created = false; association_created = false }),
      record_outbound e id now,
    )
accept_keyed e key reply_source now none =
    let created = not (has_association e (association key)) in
    let associations =
      if created
      then insert AssociationKey-discrete (association key) (record { flow_count = 0 })
          e.associations
      else e.associations in
    if leb e.max_flows (length e.by_key)
    then some (err flow_limit, e)
    else if created && leb e.max_associations (length e.associations)
    then some (err association_limit, e)
    else accept_inserted e key created associations
        (Table.insert e.flows (fresh_flow key reply_source now))

abbrev pub same_family : SocketAddr → SocketAddr → Bool
same_family a b = if is_ipv4 a then is_ipv4 b else not (is_ipv4 b)

unfoldable pub accept_routed : Engine → FlowKey → SocketAddr → ℕ → Option (AcceptResult × Engine)
unfolding accept_keyed
accept_routed e key reply_source now =
    if not (same_family key.source key.target) || not (same_family key.source reply_source)
    then some (err family_mismatch, e)
    else accept_keyed e key reply_source now (id_for_key e key)

unfoldable pub accept : Engine → FlowKey → ℕ → Option (AcceptResult × Engine)
unfolding accept_routed
accept e key now = accept_routed e key key.target now

-- An association that loses a flow, and goes with the last one.
abbrev pub release :
    AssociationKey
    → List (AssociationKey × Association)
    → Option Association
    → List (AssociationKey × Association)
release a associations none = associations
release a associations (some association) =
    let count = association.flow_count - 1 in
    let associations' =
      insert AssociationKey-discrete a (record association { flow_count = count }) associations in
    if count == 0 then remove AssociationKey-discrete a associations' else associations'

unfoldable pub remove_flushed :
    Engine → Flow → Option (List Flow × FlowTable Flow) → Option (Bool × Engine)
remove_flushed e f none = none
remove_flushed e f (some (removed, flows)) =
    let associations =
      release (association f.key) e.associations
        (lookup AssociationKey-discrete (association f.key) e.associations) in
    let by_key = remove FlowKey-discrete f.key e.by_key in
    if length removed == 1
    then some (true, record e { flows = flows; by_key = by_key; associations = associations })
    else none

unfoldable pub remove_found : Engine → FlowId → Option Flow → Option (Bool × Engine)
unfolding remove_flushed
remove_found e id none = some (false, e)
remove_found e id (some f) = remove_flushed e f (flush_deferred (defer_remove e.flows id))

unfoldable pub remove_flow : Engine → FlowId → Option (Bool × Engine)
unfolding remove_found
remove_flow e id = remove_found e id (flow e id)

abbrev pub is_due : ℕ → Option Flow → Bool
is_due now none = false
is_due now (some f) = leb (expires_at f) now

abbrev pub due_ids : ℕ → Engine → List FlowId → List FlowId
due_ids now e [] = []
due_ids now e (id ∷ ids) =
    let rest = due_ids now e ids in if is_due now (flow e id) then id ∷ rest else rest

unfoldable pub remove_all : Engine → List FlowId → Option Engine
unfolding remove_flow
remove_all e [] = some e
remove_all e (id ∷ ids) = do
  (removed, e') ← remove_flow e id
  let rest = remove_all e' ids
  if removed then rest else none

unfoldable pub expire : Engine → ℕ → Option (List FlowId × Engine)
unfolding remove_all
expire e now = do
  let expired = due_ids now e (active_ids e.flows)
  e' ← remove_all e expired
  some (expired, e')

abbrev pub active_flows : Engine → ℕ
active_flows e = length e.by_key

abbrev pub active_associations : Engine → ℕ
active_associations e = length e.associations
