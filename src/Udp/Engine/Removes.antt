-- ===== src/Udp/Engine/Removes.antt =====
-- `remove` and `expire`: a flow goes with its key and its share of the association.
use yayatht.Base.{◌≡◌, refl, sym, ap, subst, ◌∙◌, ◌≢◌, inl, inr, Bool, true, false}
use yayatht.Base.{Option, none, some, arith}
use yayatht.Base.{remove, lookup-remove_self, lookup-remove_ne, length-remove-le, remove-Distinct}
use yayatht.Flows.Token.{FlowId}
use yayatht.Flows.Table.{same_id}
use yayatht.Flows.Table.Remove.{remove_one, same_id-cases}
use yayatht.Udp.Engine.{
  FlowKey, Flow, Engine, association, flow, id_for_key, association_for, FlowKey-discrete, release,
  remove_found, remove_flushed, remove_flow,
}
use yayatht.Udp.Engine.Inv.{Inv, Linked}
use yayatht.Udp.Engine.Counts.{release-Released}

-- The flow is gone with its key; every other id and key stands as before.
pub record Removal (e : Engine) (id : FlowId) (f : Flow) (returned : Option (Bool × Engine))
    : Type 0 where
  pub after : Engine
  pub returns : returned ≡ some (true, after)
  pub after_Inv : Inv after
  pub gone : flow after id ≡ none
  pub others : (other : FlowId) → same_id other id ≡ false → flow after other ≡ flow e other
  pub key_gone : id_for_key after f.key ≡ none
  pub other_keys : (k : FlowKey) → k ≢ f.key → id_for_key after k ≡ id_for_key e k

abbrev pub Outcome : Engine → FlowId → Option Flow → Option (Bool × Engine) → Type 0
Outcome e id none returned = returned ≡ some (false, e)
Outcome e id (some f) returned = Removal e id f returned

remove_found-Outcome :
    (e : Engine) (id : FlowId) (o : Option Flow)
    → Inv e
    → flow e id ≡ o
    → Outcome e id o (remove_found e id o)
unfolding remove_found remove_flushed
remove_found-Outcome e id none v found = refl
remove_found-Outcome e id (some f) v found =
    let r = remove_one e.flows id f v.table v.settled found in
    let known = v.owned id f found in
    let c = release-Released e f.key id v known in
    let m = remove FlowKey-discrete f.key e.by_key in
    let g : Engine = record e {
      flows = r.after;
      by_key = m;
      associations =
          release (association f.key) e.associations (association_for e (association f.key));
    } in
    record {
      after = g;
      returns = rw r.returns refl;
      after_Inv = record {
        table = r.after_Inv;
        settled = r.settled;
        distinct_keys = remove-Distinct FlowKey-discrete f.key e.by_key v.distinct_keys;
        distinct_associations = c.counts.distinct;
        linked = λ k i there.
            let apart : k ≢ f.key =
              λ q. ground (arith, lookup-remove_self FlowKey-discrete f.key e.by_key, there, q) in
            let there_before =
              sym (lookup-remove_ne FlowKey-discrete f.key k e.by_key apart) ∙ there in
            let was : Linked k (flow e i) = v.linked k i there_before in
            elim (same_id-cases i id) [
              | inl same ↦ absurd (apart (sym (subst (Linked k) (ap (flow e) same ∙ found) was)))
              | inr other ↦ rw (r.others i other) was
            ];
        owned = λ i x there. elim (same_id-cases i id) [
          | inl same ↦ absurd (ground (arith, r.gone, same))
          | inr other ↦
              let was = v.owned i x (sym (r.others i other) ∙ there) in
              let apart : x.key ≢ f.key = λ q.
                let same : id ≡ i = ground (arith, known, was, q) in
                ground (arith, r.gone, there, same) in
              lookup-remove_ne FlowKey-discrete f.key x.key e.by_key apart ∙ was
        ];
        counted = c.counts.agrees;
        flows_bound =
            omega (arith, length-remove-le FlowKey-discrete f.key e.by_key, v.flows_bound);
        associations_bound = c.bound;
      };
      gone = r.gone;
      others = r.others;
      key_gone = lookup-remove_self FlowKey-discrete f.key e.by_key;
      other_keys = λ k ne. lookup-remove_ne FlowKey-discrete f.key k e.by_key ne;
    }

-- On an engine in order `remove` of an id that finds no flow changes nothing; else it takes out
-- exactly that flow and its key, its association counts one flow less and goes with the last one, and
-- no `expect` or assertion fails.
pub remove_flow-Outcome :
    (e : Engine) (id : FlowId) → Inv e → Outcome e id (flow e id) (remove_flow e id)
unfolding remove_flow
remove_flow-Outcome e id v = remove_found-Outcome e id (flow e id) v refl
