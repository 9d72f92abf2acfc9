-- ===== src/Udp/Engine/Inv.antt =====
-- What holds of the UDP engine between calls: the maps and the table name the same flows, and every
-- association counts its flows.
use yayatht.Base.{ℕ, zero, suc, ◌+◌, ◌≤◌}
use yayatht.Base.{◌≡◌}
use yayatht.Base.{Option, none, some, List, [], ◌∷◌, arith}
use yayatht.Base.{length}
use yayatht.Base.{lookup, remove, remove_absent, Distinct}
use mathlib.Core.Logic.{ite}
use yayatht.Flows.Token.{FlowId}
use yayatht.Flows.Table.Inv as Table
use yayatht.Udp.Engine.{
  AssociationKey, FlowKey, Flow, Association, Engine, association, flow, id_for_key,
  association_for, AssociationKey-discrete, FlowKey-discrete,
}

-- The flows of an association.
abbrev pub tally : AssociationKey → List (FlowKey × FlowId) → ℕ
tally a [] = 0
tally a ((key, id) ∷ m) =
    let rest = tally a m in ite (AssociationKey-discrete (association key) a) (suc rest) rest

-- The entry of an association of so many flows.
abbrev pub entry : ℕ → Option Association
entry zero = none
entry (suc n) = some (record { flow_count = suc n })

abbrev pub Linked : FlowKey → Option Flow → Type 0
Linked key none = ⊥
Linked key (some f) = f.key ≡ key

pub record Inv (e : Engine) : Type 0 where
  pub table : Table.Inv e.flows
  pub settled : e.flows.deferred ≡ []
  pub distinct_keys : Distinct FlowKey-discrete e.by_key
  pub distinct_associations : Distinct AssociationKey-discrete e.associations
  pub linked : (key : FlowKey) (id : FlowId) → id_for_key e key ≡ some id → Linked key (flow e id)
  pub owned : (id : FlowId) (f : Flow) → flow e id ≡ some f → id_for_key e f.key ≡ some id
  pub counted : (a : AssociationKey) → association_for e a ≡ entry (tally a e.by_key)
  pub flows_bound : length e.by_key ≤ e.max_flows
  pub associations_bound : length e.associations ≤ e.max_associations

-- One flow less.
pub tally-remove :
    (a : AssociationKey) (key : FlowKey) (id : FlowId) (m : List (FlowKey × FlowId))
    → Distinct FlowKey-discrete m
    → lookup FlowKey-discrete key m ≡ some id
    → tally a m
      ≡ ite (AssociationKey-discrete (association key) a) 1 0
        + tally a (remove FlowKey-discrete key m)
unfolding lookup remove
tally-remove a key id [] d e = absurd cc
tally-remove a key id ((k, i) ∷ m) d e = elim (FlowKey-discrete key k) [
  | yes q ↦ ground (arith, q, remove_absent FlowKey-discrete k m d.0)
  | no q ↦ ground (arith, q, tally-remove a key id m d.1)
]
