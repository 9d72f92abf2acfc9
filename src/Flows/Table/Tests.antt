-- ===== src/Flows/Table/Tests.antt =====
-- A table of two slots through an insertion, a removal and a flush.
use yayatht.Base.{ℕ}
use yayatht.Base.{◌≡◌, refl, subst, false}
use yayatht.Base.{none, some, [], ◌∷◌, arith}
use yayatht.Flows.Token.{FlowId}
use yayatht.Flows.Table.{
  Slot, FlowTable, stored, fresh_slot, insert_in, insert_from, insert, get, same_id, defer_remove,
  flush_slot, flush_loop, flush_deferred, with_capacity,
}
use yayatht.Flows.Table.Inv.{Inv, with_capacity-Inv}
use yayatht.Flows.Table.History.{
  Step, inserts, defers, start, next, Step-Inv, Reach-Inv, get-flushed,
}
use yayatht.Flows.Table.Fresh.{get-insert}

abbrev two : FlowTable ℕ
two = record { slots = fresh_slot ∷ fresh_slot ∷ []; free = 0 ∷ 1 ∷ []; deferred = [] }

abbrev used : Slot ℕ
used = record { generation = 1; value = some 5; retired = false }

abbrev zeroth : FlowId
zeroth = record { slot = 0; generation = 1 }

abbrev one_used : FlowTable ℕ
one_used = record { slots = used ∷ fresh_slot ∷ []; free = 1 ∷ []; deferred = [] }

abbrev one_deferred : FlowTable ℕ
one_deferred = record { slots = used ∷ fresh_slot ∷ []; free = 1 ∷ []; deferred = zeroth ∷ [] }

abbrev second_life : Slot ℕ
second_life = record { generation = 2; value = none; retired = false }

abbrev flushed : FlowTable ℕ
flushed = record { slots = second_life ∷ fresh_slot ∷ []; free = 0 ∷ 1 ∷ []; deferred = [] }

abbrev none_left : FlowTable ℕ
none_left = record { slots = []; free = []; deferred = [] }

two-Inv : Inv two
unfolding with_capacity
two-Inv =
    let fresh = with_capacity-Inv {A = ℕ} 2 (omega arith) in
    subst Inv {x = fresh.0} (ground (arith, fresh.1)) fresh.2

inserted : Step two one_used
unfolding insert insert_from insert_in
inserted = inserts 5 {r = stored zeroth} refl

used_again : Step flushed (record flushed {
  slots = record second_life { value = some 6 } ∷ fresh_slot ∷ [];
  free = 1 ∷ [];
})
unfolding insert insert_from insert_in
used_again = inserts 6 {r = stored (record { slot = 0; generation = 2 })} refl

deferred-Step : Step one_used one_deferred
unfolding defer_remove get
deferred-Step = defers zeroth

one_deferred-Inv : Inv one_deferred
one_deferred-Inv = Step-Inv deferred-Step (Step-Inv inserted two-Inv)

flush_step : flush_deferred one_deferred ≡ some (5 ∷ [], flushed)
unfolding flush_deferred flush_loop flush_slot
flush_step = refl

-- The id that was flushed is not found after the slot was given out again.
get-flushed_example :
    get
      (record flushed {
        slots = record second_life { value = some 6 } ∷ fresh_slot ∷ [];
        free = 1 ∷ [];
      })
      zeroth
    ≡ none
get-flushed_example = get-flushed zeroth one_deferred-Inv refl flush_step (next start used_again)

Reach-Inv_example : Inv one_deferred
Reach-Inv_example = Reach-Inv (next (next start inserted) deferred-Step) two-Inv

get-insert_example :
    let t = two in
    let u = one_used in
    let value : ℕ = 5 in
    let id = zeroth in
    (get u id ≡ some value)
    × (get t id ≡ none)
    × ((other : FlowId) → same_id other id ≡ false → get u other ≡ get t other)
unfolding insert insert_from insert_in
get-insert_example = get-insert two one_used 5 zeroth two-Inv refl
