-- ===== src/Udp/Engine/Limits.antt =====
-- No operation changes an engine's limits.
use yayatht.Base.{ℕ}
use yayatht.Base.{◌≡◌, refl, sym, ◌∙◌, inl, inr, Bool, true, false, not, ◌&&◌, ◌||◌}
use yayatht.Base.{
  Option, none, some, List, [], ◌∷◌, arith, leb, ◌==◌, if◌then◌else◌, Option-cases, if-cases,
}
use yayatht.Base.{length}
use yayatht.Base.{lookup, insert}
use yayatht.Net.{SocketAddr}
use yayatht.Flows.Token.{FlowId}
use yayatht.Flows.Table.{
  FlowTable, Inserted, stored, refused, active_ids, defer_remove, flush_deferred,
}
use yayatht.Flows.Table as Table
use yayatht.Udp.Engine.{
  AssociationKey, new, FlowKey, Flow, Association, Engine, AcceptResult, association, flow,
  id_for_key, has_association, increment, routes_elsewhere, fresh_flow, accept_inserted,
  accept_keyed, accept_routed, same_family, remove_found, remove_flushed, remove_flow, remove_all,
  due_ids, expire, AssociationKey-discrete,
}

abbrev pub SameLimits : Engine → Engine → Type 0
SameLimits e g = (g.max_flows ≡ e.max_flows) × (g.max_associations ≡ e.max_associations)

pub new-limits :
    (m n : ℕ) (e : Engine) → new m n ≡ some e → (e.max_flows ≡ m) × (e.max_associations ≡ n)
unfolding new
new-limits m n e h = elim (Option-cases (Table.with_capacity {A = Flow} m)) [
  | inl failed ↦ absurd (ground (arith, failed, h))
  | inr (t, made) ↦ ground (arith, made, h)
]

accept_inserted-SameLimits :
    (e : Engine) (key : FlowKey) (created : Bool) (m : List (AssociationKey × Association))
    (o : Option (Inserted Flow × FlowTable Flow)) (r : AcceptResult) (g : Engine)
    → accept_inserted e key created m o ≡ some (r, g)
    → SameLimits e g
unfolding accept_inserted
accept_inserted-SameLimits e key created m none r g h = absurd cc
accept_inserted-SameLimits e key created m (some (refused f, u)) r g h = ground (arith, h)
accept_inserted-SameLimits e key created m (some (stored id, u)) r g h =
    elim (Option-cases
      (increment (association key) m (lookup AssociationKey-discrete (association key) m))) [
        | inl none' ↦ absurd (ground (arith, none', h))
        | inr (counted, is) ↦ ground (arith, is, h)
      ]

accept_keyed-SameLimits :
    (e : Engine) (key : FlowKey) (reply_source : SocketAddr) (now : ℕ) (o : Option FlowId)
    (r : AcceptResult) (g : Engine)
    → accept_keyed e key reply_source now o ≡ some (r, g)
    → SameLimits e g
unfolding accept_keyed
accept_keyed-SameLimits e key reply_source now (some id) r g =
    if-cases (λ x. x ≡ some (r, g) → SameLimits e g) (routes_elsewhere reply_source (flow e id))
      (λ t h. ground (arith, h)) (λ t h. ground (arith, h))
accept_keyed-SameLimits e key reply_source now none r g =
    let P : Option (AcceptResult × Engine) → Type 0 = λ x. x ≡ some (r, g) → SameLimits e g in
    let a = association key in
    let created = not (has_association e a) in
    let opened =
      if created
      then insert AssociationKey-discrete a (record { flow_count = 0 }) e.associations
      else e.associations in
    if-cases P (leb e.max_flows (length e.by_key)) (λ t h. ground (arith, h))
      (λ t.
        if-cases P (created && leb e.max_associations (length e.associations))
          (λ u h. ground (arith, h))
          (λ u h.
            accept_inserted-SameLimits e key created opened
              (Table.insert e.flows (fresh_flow key reply_source now)) r g h))

pub accept_routed-SameLimits :
    (e : Engine) (key : FlowKey) (reply_source : SocketAddr) (now : ℕ) (r : AcceptResult)
    (g : Engine)
    → accept_routed e key reply_source now ≡ some (r, g)
    → SameLimits e g
unfolding accept_routed
accept_routed-SameLimits e key reply_source now r g =
    if-cases (λ x. x ≡ some (r, g) → SameLimits e g)
      (not (same_family key.source key.target) || not (same_family key.source reply_source))
      (λ t h. ground (arith, h))
      (λ t h. accept_keyed-SameLimits e key reply_source now (id_for_key e key) r g h)

remove_flushed-SameLimits :
    (e : Engine) (f : Flow) (o : Option (List Flow × FlowTable Flow)) (b : Bool) (g : Engine)
    → remove_flushed e f o ≡ some (b, g)
    → SameLimits e g
unfolding remove_flushed
remove_flushed-SameLimits e f none b g = λ h. absurd cc
remove_flushed-SameLimits e f (some (removed, u)) b g =
    if-cases (λ x. x ≡ some (b, g) → SameLimits e g) (length removed == 1)
      (λ t h. ground (arith, h)) (λ t h. absurd cc)

remove_found-SameLimits :
    (e : Engine) (id : FlowId) (o : Option Flow) (b : Bool) (g : Engine)
    → remove_found e id o ≡ some (b, g)
    → SameLimits e g
unfolding remove_found
remove_found-SameLimits e id none b g h = ground (arith, h)
remove_found-SameLimits e id (some f) b g h =
    remove_flushed-SameLimits e f (flush_deferred (defer_remove e.flows id)) b g h

pub remove_flow-SameLimits :
    (e : Engine) (id : FlowId) (b : Bool) (g : Engine)
    → remove_flow e id ≡ some (b, g)
    → SameLimits e g
unfolding remove_flow
remove_flow-SameLimits e id b g h = remove_found-SameLimits e id (flow e id) b g h

remove_all-SameLimits :
    (ids : List FlowId) (e g : Engine) → remove_all e ids ≡ some g → SameLimits e g
unfolding remove_all
remove_all-SameLimits [] e g h = ground (arith, h)
remove_all-SameLimits (id ∷ ids) e g h = elim (Option-cases (remove_flow e id)) [
  | inl failed ↦ absurd (ground (arith, failed, h))
  | inr ((true, e'), done) ↦
      let one = remove_flow-SameLimits e id true e' done in
      let stepped : remove_all e (id ∷ ids) ≡ remove_all e' ids = rw done refl in
      let rest = remove_all-SameLimits ids e' g (sym stepped ∙ h) in
      (rest.0 ∙ one.0, rest.1 ∙ one.1)
  | inr ((false, e'), done) ↦
      let failed : remove_all e (id ∷ ids) ≡ none = rw done refl in
      absurd (ground (arith, failed, h))
]

pub expire-SameLimits :
    (e : Engine) (now : ℕ) (ids : List FlowId) (g : Engine)
    → expire e now ≡ some (ids, g)
    → SameLimits e g
unfolding expire
expire-SameLimits e now ids g h =
    let due = due_ids now e (active_ids e.flows) in
    elim (Option-cases (remove_all e due)) [
      | inl failed ↦ absurd (ground (arith, failed, h))
      | inr (e', done) ↦
          let returns : expire e now ≡ some (due, e') = rw done refl in
          remove_all-SameLimits due e g (done ∙ ground (arith, returns, h))
    ]
