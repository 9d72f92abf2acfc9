-- ===== src/Udp/Engine/Counts.antt =====
-- The counts of the associations as a flow comes and goes.
use yayatht.Base.{ℕ, zero, suc, ◌≤◌, ◌<◌}
use yayatht.Base.{◌≡◌, refl, ap, ◌∙◌, ◌≢◌, ◌⊎◌, inl, inr, false, not, ◌&&◌}
use yayatht.Base.{none, some, List, arith, leb, if◌then◌else◌}
use yayatht.Base.{length}
use yayatht.Base.{
  lookup, remove, insert, lookup-remove_self, lookup-remove_ne, lookup-insert_self,
  lookup-insert_ne, length-remove-le, remove_absent, Distinct, remove-Distinct, insert-Distinct,
  length-insert, length-insert-le,
}
use mathlib.Core.Logic.{ite}
use yayatht.Flows.Token.{FlowId}
use yayatht.Udp.Engine.{
  AssociationKey, FlowKey, Association, Engine, association, association_for, has_association,
  id_for_key, AssociationKey-discrete, FlowKey-discrete, increment, release,
}
use yayatht.Udp.Engine.Inv.{Inv, tally, entry, tally-remove}

abbrev pub opened : Engine → AssociationKey → List (AssociationKey × Association)
opened e a =
    if not (has_association e a)
    then insert AssociationKey-discrete a (record { flow_count = 0 }) e.associations
    else e.associations

-- The associations count the flows of a map.
pub record Counts (m : List (FlowKey × FlowId)) (associations : List (AssociationKey × Association))
    : Type 0 where
  pub distinct : Distinct AssociationKey-discrete associations
  pub agrees :
      (a : AssociationKey) → lookup AssociationKey-discrete a associations ≡ entry (tally a m)

-- The other associations count as before.
Others : AssociationKey → List (FlowKey × FlowId) → List (AssociationKey × Association) → Type 0
Others b m associations =
    (a : AssociationKey) → a ≢ b → lookup AssociationKey-discrete a associations ≡ entry (tally a m)

set-Counts :
    (b : AssociationKey) (n : ℕ) (m : List (FlowKey × FlowId))
    (associations : List (AssociationKey × Association))
    → Distinct AssociationKey-discrete associations
    → tally b m ≡ suc n
    → Others b m associations
    → Counts m (insert AssociationKey-discrete b (record { flow_count = suc n }) associations)
unfolding Others
set-Counts b n m associations d here there =
    let new : Association = record { flow_count = suc n } in
    record {
      distinct = insert-Distinct AssociationKey-discrete b new associations d;
      agrees = λ a. elim (AssociationKey-discrete a b) [
        | yes q ↦ rw (q, here) (lookup-insert_self AssociationKey-discrete b new associations)
        | no q ↦ lookup-insert_ne AssociationKey-discrete b a new associations q ∙ there a q
      ];
    }

drop-Counts :
    (b : AssociationKey) (m : List (FlowKey × FlowId))
    (associations : List (AssociationKey × Association))
    → Distinct AssociationKey-discrete associations
    → tally b m ≡ 0
    → Others b m associations
    → Counts m (remove AssociationKey-discrete b associations)
unfolding Others
drop-Counts b m associations d here there = record {
  distinct = remove-Distinct AssociationKey-discrete b associations d;
  agrees = λ a. elim (AssociationKey-discrete a b) [
    | yes q ↦ rw (q, here) (lookup-remove_self AssociationKey-discrete b associations)
    | no q ↦ lookup-remove_ne AssociationKey-discrete b a associations q ∙ there a q
  ];
}

-- One more flow: its association is counted, and made where there was none.
pub record Counted (e : Engine) (key : FlowKey) (id : FlowId) : Type 0 where
  pub after : List (AssociationKey × Association)
  pub returns :
      increment
        (association key)
        (opened e (association key))
        (lookup AssociationKey-discrete (association key) (opened e (association key)))
      ≡ some after
  pub counts : Counts (insert FlowKey-discrete key id e.by_key) after
  pub bound : length after ≤ e.max_associations

tally-insert :
    (a : AssociationKey) (key : FlowKey) (id : FlowId) (m : List (FlowKey × FlowId))
    → lookup FlowKey-discrete key m ≡ none
    → tally a (insert FlowKey-discrete key id m)
      ≡ ite (AssociationKey-discrete (association key) a) (suc (tally a m)) (tally a m)
unfolding insert
tally-insert a key id m h = ground (arith, remove_absent FlowKey-discrete key m h)

entry-cases :
    (n : ℕ)
    → ((n ≡ 0) × (entry n ≡ none))
      ⊎ ((k : ℕ) × (n ≡ suc k) × (entry n ≡ some (record { flow_count = suc k })))
entry-cases zero = inl (refl, refl)
entry-cases (suc k) = inr (k, refl, refl)

Others-insert :
    (e : Engine) (key : FlowKey) (id : FlowId)
    → Inv e
    → id_for_key e key ≡ none
    → Others (association key) (insert FlowKey-discrete key id e.by_key) e.associations
unfolding Others
Others-insert e key id v new a q =
    ground (arith, tally-insert a key id e.by_key new, q, v.counted a)

pub increment-Counted :
    (e : Engine) (key : FlowKey) (id : FlowId)
    → Inv e
    → id_for_key e key ≡ none
    → (not (has_association e (association key)) && leb e.max_associations (length e.associations))
      ≡ false
    → Counted e key id
unfolding Others
increment-Counted e key id v new room =
    let b = association key in
    let m = insert FlowKey-discrete key id e.by_key in
    let zeroth : Association = record { flow_count = 0 } in
    elim (entry-cases (tally b e.by_key)) [
      | inl (none_yet, absent) ↦
          let with_zero = insert AssociationKey-discrete b zeroth e.associations in
          let self : lookup AssociationKey-discrete b with_zero ≡ some zeroth =
            lookup-insert_self AssociationKey-discrete b zeroth e.associations in
          let fresh : opened e b ≡ with_zero = ground (arith, v.counted b, absent) in
          let d =
            insert-Distinct AssociationKey-discrete b zeroth e.associations
              v.distinct_associations in
          let below : length e.associations < e.max_associations =
            ground (arith, v.counted b, absent) in
          let one : Association = record { flow_count = 1 } in
          record {
            after = insert AssociationKey-discrete b one with_zero;
            returns = rw (fresh, self) refl;
            counts =
                set-Counts b 0 m with_zero d
                  (ground (arith, tally-insert b key id e.by_key new, none_yet))
                  (λ a q.
                    lookup-insert_ne AssociationKey-discrete b a zeroth e.associations q
                    ∙ Others-insert e key id v new a q);
            bound = omega (
              arith,
              length-insert AssociationKey-discrete b zeroth one with_zero d self,
              length-insert-le AssociationKey-discrete b zeroth e.associations,
              below,
            );
          }
      | inr (n, some_yet, present) ↦
          let had : Association = record { flow_count = suc n } in
          let more : Association = record { flow_count = suc (suc n) } in
          let found : association_for e b ≡ some had = v.counted b ∙ present in
          let same : opened e b ≡ e.associations = ground (arith, found) in
          record {
            after = insert AssociationKey-discrete b more e.associations;
            returns = rw (same, found) (ground arith);
            counts =
                set-Counts b (suc n) m e.associations v.distinct_associations
                  (ground (arith, tally-insert b key id e.by_key new, some_yet))
                  (Others-insert e key id v new);
            bound = omega (
              arith,
              length-insert AssociationKey-discrete b had more e.associations
                  v.distinct_associations found,
              v.associations_bound,
            );
          }
    ]

-- One flow less: its association counts down, and goes with the last flow.
pub record Released (e : Engine) (key : FlowKey) (after : List (AssociationKey × Association))
    : Type 0 where
  pub counts : Counts (remove FlowKey-discrete key e.by_key) after
  pub bound : length after ≤ e.max_associations

pub release-Released :
    (e : Engine) (key : FlowKey) (id : FlowId)
    → Inv e
    → id_for_key e key ≡ some id
    → Released e key
        (release (association key) e.associations (association_for e (association key)))
unfolding Others
release-Released e key id v known =
    let b = association key in
    let m = remove FlowKey-discrete key e.by_key in
    let t = tally-remove b key id e.by_key v.distinct_keys known in
    let others : Others b m e.associations =
      λ a q. ground (arith, tally-remove a key id e.by_key v.distinct_keys known, q, v.counted a) in
    elim (entry-cases (tally b m)) [
      | inl (last, _) ↦
          let one : Association = record { flow_count = 1 } in
          let found : association_for e b ≡ some one =
            v.counted b ∙ ap entry {y = 1} (ground (arith, t, last)) in
          let zeroth : Association = record { flow_count = 0 } in
          let put = insert AssociationKey-discrete b zeroth e.associations in
          rw found (record {
            counts =
                drop-Counts b m put
                  (insert-Distinct AssociationKey-discrete b zeroth e.associations
                    v.distinct_associations)
                  last
                  (λ a q.
                    lookup-insert_ne AssociationKey-discrete b a zeroth e.associations q
                    ∙ others a q);
            bound = omega (
              arith,
              length-remove-le AssociationKey-discrete b put,
              length-insert AssociationKey-discrete b one zeroth e.associations
                  v.distinct_associations found,
              v.associations_bound,
            );
          })
      | inr (n, left, _) ↦
          let more : Association = record { flow_count = suc (suc n) } in
          let found : association_for e b ≡ some more =
            v.counted b ∙ ap entry {y = suc (suc n)} (ground (arith, t, left)) in
          let fewer : Association = record { flow_count = suc n } in
          let down : release b e.associations (some more)
              ≡ insert AssociationKey-discrete b fewer e.associations =
            ground arith in
          rw (found, down)
            (record {
              counts = set-Counts b n m e.associations v.distinct_associations left others;
              bound = omega (
                arith,
                length-insert AssociationKey-discrete b more fewer e.associations
                    v.distinct_associations found,
                v.associations_bound,
              );
            })
    ]
