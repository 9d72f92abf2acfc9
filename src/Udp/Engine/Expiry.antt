-- ===== src/Udp/Engine/Expiry.antt =====
-- `expire`: exactly the flows whose time has come are removed.
use yayatht.Base.{ℕ}
use yayatht.Base.{◌≡◌, refl, subst, inl, inr, true, ◌&&◌}
use yayatht.Base.{none, some, List, [], ◌∷◌, arith, if◌then◌else◌, Option-cases, is_some, if-cases}
use yayatht.Flows.Token.{FlowId}
use yayatht.Flows.Table.{contains, active_ids}
use yayatht.Flows.Table.Remove.{same_id-cases, Once, active_ids-Once, contains-active_ids}
use yayatht.Udp.Engine.{Engine, flow, remove_flow, is_due, due_ids, remove_all, expire}
use yayatht.Udp.Engine.Inv.{Inv}
use yayatht.Udp.Engine.Removes.{Removal, Outcome, remove_flow-Outcome}

contains-due_ids :
    (now : ℕ) (e : Engine) (ids : List FlowId) (id : FlowId)
    → contains (due_ids now e ids) id ≡ (contains ids id && is_due now (flow e id))
contains-due_ids now e [] id = refl
contains-due_ids now e (x ∷ ids) id = elim (same_id-cases x id) [
  | inl same ↦ ground (arith, same, contains-due_ids now e ids id)
  | inr other ↦ ground (arith, other, contains-due_ids now e ids id)
]

due_ids-Once : (now : ℕ) (e : Engine) (ids : List FlowId) → Once ids → Once (due_ids now e ids)
due_ids-Once now e [] o = o
due_ids-Once now e (x ∷ ids) o =
    if-cases Once (is_due now (flow e x))
      (λ t. (ground (arith, contains-due_ids now e ids x, o.0), due_ids-Once now e ids o.1))
      (λ t. due_ids-Once now e ids o.1)

record Swept (e : Engine) (ids : List FlowId) : Type 0 where
  after : Engine
  returns : remove_all e ids ≡ some after
  after_Inv : Inv after
  finds : (id : FlowId) → flow after id ≡ (if contains ids id then none else flow e id)

Live : Engine → List FlowId → Type 0
Live e ids = (id : FlowId) → contains ids id ≡ true → is_some (flow e id) ≡ true

sweep : (ids : List FlowId) (e : Engine) → Inv e → Once ids → Live e ids → Swept e ids
unfolding Live remove_all
sweep [] e v o l = record { after = e; returns = refl; after_Inv = v; finds = λ id. refl }
sweep (x ∷ ids) e v o l = elim (Option-cases (flow e x)) [
  | inl missing ↦ absurd (ground (arith, l x (ground arith), missing))
  | inr (f, found) ↦
      let r : Removal e x f (remove_flow e x) =
        subst (λ q. Outcome e x q (remove_flow e x)) found (remove_flow-Outcome e x v) in
      let rest = sweep ids r.after r.after_Inv o.1 (λ id has. elim (same_id-cases id x) [
        | inl same ↦ absurd (ground (arith, o.0, same, has))
        | inr other ↦ rw (r.others id other) (l id (ground (arith, has)))
      ]) in
      record {
        after = rest.after;
        returns = rw r.returns rest.returns;
        after_Inv = rest.after_Inv;
        finds = λ id. elim (same_id-cases id x) [
          | inl same ↦ ground (arith, rest.finds id, r.gone, same)
          | inr other ↦ ground (arith, rest.finds id, r.others id other)
        ];
      }
]

-- On an engine in order `expire` returns, with no failed assertion, the ids of exactly the flows whose
-- time has come; after it those ids find nothing, every other id finds what it found, and the engine is
-- in order.
pub expire-flows :
    (e : Engine) (now : ℕ)
    → Inv e
    → (expired : List FlowId) × (g : Engine) × (expire e now ≡ some (expired, g))
      × ((id : FlowId) → contains expired id ≡ is_due now (flow e id))
      × ((id : FlowId) → flow g id ≡ (if is_due now (flow e id) then none else flow e id))
      × Inv g
unfolding expire Live
expire-flows e now v =
    let ids = active_ids e.flows in
    let exact : (id : FlowId) → contains (due_ids now e ids) id ≡ is_due now (flow e id) =
      λ id. ground (arith, contains-due_ids now e ids id, contains-active_ids e.flows id) in
    let s =
      sweep (due_ids now e ids) e v (due_ids-Once now e ids (active_ids-Once e.flows))
        (λ id has. ground (arith, exact id)) in
    (
      due_ids now e ids,
      s.after,
      rw s.returns refl,
      exact,
      λ id. rw (← exact id) (s.finds id),
      s.after_Inv,
    )
