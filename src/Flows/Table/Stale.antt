-- ===== src/Flows/Table/Stale.antt =====
-- Ids do not come back: a slot's generation only grows, so an id that was flushed finds nothing, in
-- any later history of the table.
use yayatht.Base.{ℕ, ◌+◌, ◌≤◌, ◌<◌}
use yayatht.Base.{◌≡◌, refl, sym, subst, ◌⊎◌, inl, inr, true}
use yayatht.Base.{Option, none, some, List, [], ◌∷◌, arith, ltb, ◌==◌, Bool-cases, Option-cases}
use yayatht.Base.{get_elem?, set, get_elem?-set_self, get_elem?-set_ne, get_elem?-lt}
use yayatht.Base.{u32_max}
use native.Mathlib.Decide.{ℕ_discrete}
use yayatht.Flows.Token.{FlowId}
use yayatht.Flows.Table.{Slot, flush_slot, flush_loop, contains, same_id}
use yayatht.Flows.Table.Inv.{DeferOk, Stacked, AllDeferOk}
use yayatht.Flows.Table.Keep.{flush_slot-Ok}

none-ne-some {ℓ} : {A : Type ℓ} {a : A} → ¬ (none ≡ some a)
none-ne-some e = cc

module _ {ℓ} {A : Type ℓ} where
  -- A slot under which an id of generation `g` finds nothing any more.
  abbrev pub Dead : Option (Slot A) → ℕ → Type 0
  Dead none g = Unit
  Dead (some slot) g = (g < slot.generation) ⊎ ((slot.retired ≡ true) × (g ≤ slot.generation))

  abbrev pub Advances : Slot A → Slot A → Type 0
  Advances old new =
      (old.generation < new.generation)
      ⊎ ((old.generation ≡ new.generation) × (old.retired ≡ true → new.retired ≡ true))

  -- Writes that never take a generation back and never revive a retired slot.
  pub data Ages (slots : List (Slot A)) : List (Slot A) → Type ℓ where
    here : Ages slots slots
    write :
        {mid : List (Slot A)} (i : ℕ) (old new : Slot A)
        → Ages slots mid
        → get_elem? mid i ≡ some old
        → Advances old new
        → Ages slots (set mid i new)

  Dead-set :
      (slots : List (Slot A)) (i : ℕ) (old new : Slot A) (s g : ℕ)
      → get_elem? slots i ≡ some old
      → Advances old new
      → Dead (get_elem? slots s) g
      → Dead (get_elem? (set slots i new) s) g
  Dead-set slots i old new s g found adv dead = elim (ℕ_discrete i s) [
    | yes e ↦
        subst (λ j. Dead (get_elem? (set slots i new) j) g) e
          (rw (get_elem?-set_self slots i new (get_elem?-lt slots i old found)) (
            older
              (subst (λ o. Dead o g) found (subst (λ j. Dead (get_elem? slots j) g) (sym e) dead))))
    | no ne ↦ rw (get_elem?-set_ne slots i s new ne) dead
  ]
    where
      older : Dead (some old) g → Dead (some new) g
      older d = ground arith

  pub Dead-Ages :
      (s g : ℕ) {slots slots' : List (Slot A)}
      → Ages slots slots'
      → Dead (get_elem? slots s) g
      → Dead (get_elem? slots' s) g
  Dead-Ages s g here dead = dead
  Dead-Ages s g (write {mid} i old new before found adv) dead =
      Dead-set mid i old new s g found adv (Dead-Ages s g before dead)

  flush_slot-Ages :
      (id : FlowId) (start slots : List (Slot A)) (free : List ℕ) (removed : List A)
      (o : Option (Slot A)) (out : List A × List (Slot A) × List ℕ)
      → get_elem? slots id.slot ≡ o
      → Ages start slots
      → flush_slot id slots free removed o ≡ some out
      → Ages start out.1
  unfolding flush_slot
  flush_slot-Ages id start slots free removed none out found a e = absurd (ground arith)
  flush_slot-Ages id start slots free removed (some slot) out found a e =
      elim (Bool-cases (slot.generation == id.generation)) [
        | inl same ↦ elim (Bool-cases (ltb slot.generation u32_max)) [
          | inl room ↦ subst (Ages start) (ground arith) (
              write id.slot slot (record slot { generation = slot.generation + 1; value = none }) a
                found (inl (omega arith)))
          | inr last ↦ subst (Ages start) (ground arith) (
              write id.slot slot (record slot { value = none; retired = true }) a found
                (inr (refl, λ r. refl)))
        ]
        | inr stale ↦ subst (Ages start) (ground arith) a
      ]

  pub flush_loop-Ages :
      (ids : List FlowId) (start slots : List (Slot A)) (free : List ℕ) (removed : List A)
      (out : List A × List (Slot A) × List ℕ)
      → Ages start slots
      → flush_loop ids slots free removed ≡ some out
      → Ages start out.1
  unfolding flush_loop
  flush_loop-Ages [] start slots free removed out a e = subst (Ages start) (ground arith) a
  flush_loop-Ages (id ∷ ids) start slots free removed out a e =
      elim (Option-cases (flush_slot id slots free removed (get_elem? slots id.slot))) [
        | inl failed ↦ absurd (none-ne-some (rw failed at e))
        | inr (next, done) ↦
            flush_loop-Ages ids start next.1 next.2 next.0 out
              (flush_slot-Ages id start slots free removed (get_elem? slots id.slot) next refl a
                done)
              (rw done at e)
      ]

  -- The slot of an id that is flushed is dead for it.
  flush_slot-Dead :
      (id : FlowId) (slots : List (Slot A)) (free : List ℕ) (removed : List A) (slot : Slot A)
      (out : List A × List (Slot A) × List ℕ)
      → get_elem? slots id.slot ≡ some slot
      → id.generation ≤ slot.generation
      → flush_slot id slots free removed (some slot) ≡ some out
      → Dead (get_elem? out.1 id.slot) id.generation
  unfolding flush_slot
  flush_slot-Dead id slots free removed slot out found le e =
      elim (Bool-cases (slot.generation == id.generation)) [
        | inl same ↦ elim (Bool-cases (ltb slot.generation u32_max)) [
          | inl room ↦
              let new = record slot { generation = slot.generation + 1; value = none } in
              rw (written new (ground arith)) (inl (omega arith))
          | inr last ↦
              let new = record slot { value = none; retired = true } in
              rw (written new (ground arith)) (inr (refl, le))
        ]
        | inr stale ↦ rw (same_slots (ground arith)) (inl (ground arith))
      ]
    where
      written : (new : Slot A) → out.1 ≡ set slots id.slot new → get_elem? out.1 id.slot ≡ some new
      written new made =
          rw made (get_elem?-set_self slots id.slot new (get_elem?-lt slots id.slot slot found))

      same_slots : out.1 ≡ slots → get_elem? out.1 id.slot ≡ some slot
      same_slots kept = rw kept found

  flush_head-Dead :
      (id : FlowId) (ids : List FlowId) (slots : List (Slot A)) (free : List ℕ) (removed : List A)
      (out : List A × List (Slot A) × List ℕ)
      → Stacked slots free
      → AllDeferOk slots (id ∷ ids)
      → flush_loop (id ∷ ids) slots free removed ≡ some out
      → Dead (get_elem? out.1 id.slot) id.generation
  unfolding flush_loop
  flush_head-Dead id ids slots free removed out v ok e =
      let one = flush_slot-Ok id ids slots free removed v ok in
      let rest : flush_loop ids one.slots_after one.free_after one.removed ≡ some out =
        rw one.returns at e in
      elim (Option-cases (get_elem? slots id.slot)) [
        | inl missing ↦ absurd (subst (λ o. DeferOk o id.generation) missing ok.0)
        | inr (slot, found) ↦
            Dead-Ages id.slot id.generation
              (flush_loop-Ages ids one.slots_after one.slots_after one.free_after one.removed out
                here rest)
              (flush_slot-Dead id slots free removed slot
                (one.removed, one.slots_after, one.free_after) found
                (subst (λ o. DeferOk o id.generation) found ok.0).0 (rw found at one.returns))
      ]

  pub flush_loop-Dead :
      (ids : List FlowId) (id : FlowId) (slots : List (Slot A)) (free : List ℕ) (removed : List A)
      (out : List A × List (Slot A) × List ℕ)
      → contains ids id ≡ true
      → Stacked slots free
      → AllDeferOk slots ids
      → flush_loop ids slots free removed ≡ some out
      → Dead (get_elem? out.1 id.slot) id.generation
  flush_loop-Dead [] id slots free removed out has v ok e = absurd (ground arith)
  flush_loop-Dead (x ∷ ids) id slots free removed out has v ok e =
      elim (Bool-cases (same_id x id)) [
        | inl same ↦
            subst (λ j. Dead (get_elem? out.1 j) id.generation) {x = x.slot} (ground arith)
              (subst (λ g. Dead (get_elem? out.1 x.slot) g) {x = x.generation} (ground arith)
                (flush_head-Dead x ids slots free removed out v ok e))
        | inr other ↦
            let one = flush_slot-Ok x ids slots free removed v ok in
            flush_loop-Dead ids id one.slots_after one.free_after one.removed out (rw other at has)
              one.stacked one.deferred_ok (unfold flush_loop in (rw one.returns at e))
      ]
