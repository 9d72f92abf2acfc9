-- ===== src/Udp/Engine/Start.antt =====
-- The engine that `new` makes, and what its associations stand for.
use yayatht.Base.{ℕ, zero, suc, ◌^◌, ◌≤◌}
use yayatht.Base.{◌≡◌, refl, ap, subst, ◌∙◌, ◌↔◌, inl, inr, true}
use yayatht.Base.{none, some, List, [], ◌∷◌, arith, Option-cases, is_some}
use yayatht.Base.{lookup, Distinct}
use yayatht.Flows.Token.{FlowId}
use yayatht.Flows.Table.Inv.{with_capacity-Inv}
use yayatht.Flows.Table.Remove.{get-with_capacity}
use yayatht.Udp.Engine.{
  AssociationKey, FlowKey, Flow, Engine, association, flow, has_association,
  AssociationKey-discrete, FlowKey-discrete, new,
}
use yayatht.Udp.Engine.Inv.{Inv, Linked, tally, entry, tally-remove}

-- An engine for up to 2 ^ 20 flows is made and is in order.
pub new-Inv :
    (max_flows max_associations : ℕ)
    → max_flows ≤ 2 ^ 20
    → (e : Engine) × (new max_flows max_associations ≡ some e)
      × Inv e
      × ((id : FlowId) → flow e id ≡ none)
unfolding new lookup
new-Inv max_flows max_associations h =
    let (t, made, ordered, _) = with_capacity-Inv {A = Flow} max_flows h in
    let (settled, empty) = get-with_capacity max_flows t made in
    let e : Engine = record {
      flows = t;
      by_key = [];
      associations = [];
      max_flows = max_flows;
      max_associations = max_associations;
    } in
    (
      e,
      rw made refl,
      record {
        table = ordered;
        settled = settled;
        distinct_keys = tt;
        distinct_associations = tt;
        linked = λ k id found. absurd cc;
        owned = λ id f found. absurd (ground (arith, empty id, found));
        counted = λ a. refl;
        flows_bound = omega arith;
        associations_bound = omega arith;
      },
      empty,
    )

tally-found :
    (a : AssociationKey) (m : List (FlowKey × FlowId)) (n : ℕ)
    → Distinct FlowKey-discrete m
    → tally a m ≡ suc n
    → (key : FlowKey) × (id : FlowId) × (lookup FlowKey-discrete key m ≡ some id)
      × (association key ≡ a)
unfolding lookup
tally-found a [] n d t = absurd (omega arith)
tally-found a ((k, i) ∷ m) n d t = elim (AssociationKey-discrete (association k) a) [
  | yes q ↦ (k, i, ground arith, q)
  | no q ↦
      let (key, id, found, its) = tally-found a m n d.1 (ground (arith, q, t)) in
      (key, id, ground (arith, found, d.0), its)
]

counted-cases : (n : ℕ) → is_some (entry n) ≡ true → (k : ℕ) × (n ≡ suc k)
counted-cases zero e = absurd cc
counted-cases (suc k) e = (k, refl)

-- In an engine in order an association stands exactly as long as it has a flow.
pub has_association_iff :
    (e : Engine) (a : AssociationKey)
    → Inv e
    → (has_association e a ≡ true)
      ↔ ((id : FlowId) × (f : Flow) × (flow e id ≡ some f) × (association f.key ≡ a))
has_association_iff e a v = (
  λ has.
      let (n, counts) = counted-cases (tally a e.by_key) (ground (arith, v.counted a, has)) in
      let (key, id, found, its) = tally-found a e.by_key n v.distinct_keys counts in
      elim (Option-cases (flow e id)) [
        | inl missing ↦ absurd (subst (Linked key) missing (v.linked key id found))
        | inr (f, there) ↦
            (id, f, there, ap association (subst (Linked key) there (v.linked key id found)) ∙ its)
      ],
  λ (id, f, there, its). ground (
    arith,
    v.counted a,
    tally-remove a f.key id e.by_key v.distinct_keys (v.owned id f there),
    its,
  ),
)
