-- ===== src/Flows/Table/Keep.antt =====
-- Every operation of the flow table keeps its invariant, and none panics on a table in order.
use yayatht.Base.{ℕ, suc, ◌+◌, ◌<◌}
use yayatht.Base.{◌≡◌, refl, subst, ◌∙◌, inl, inr, true, false, not, ◌&&◌}
use yayatht.Base.{
  Option, none, some, List, [], ◌∷◌, ◌++◌, arith, ltb, ◌==◌, Bool-cases, Option-cases, is_some,
}
use yayatht.Base.{length, get_elem?, set, length-set, get_elem?-lt}
use yayatht.Base.{u32_max}
use yayatht.Flows.Token.{FlowId}
use yayatht.Flows.Table.{
  Slot, FlowTable, Inserted, stored, refused, insert_from, insert, value_at, get, defer_remove,
  push_value, flush_slot, flush_loop, flush_deferred, contains,
}
use yayatht.Flows.Table.Inv.{
  count, vacancy, DeferOk, Stacked, AllDeferOk, Inv, set-Stacked, set-AllDeferOk,
}

module _ {ℓ} {A : Type ℓ} where
  -- What `insert` does on a table in order.
  pub record InsertOk (t : FlowTable A) (value : A) : Type ℓ where
    pub result : Inserted A
    pub after : FlowTable A
    pub returns : insert t value ≡ some (result, after)
    pub after_Inv : Inv after

  vacant_slot :
      (o : Option (Slot A)) (n : ℕ)
      → suc n ≡ vacancy o
      → (slot : Slot A) × (o ≡ some slot) × (slot.value ≡ none) × (slot.retired ≡ false)
  vacant_slot none n e = absurd (omega arith)
  vacant_slot (some slot) n e = (slot, refl, ground arith, ground arith)

  -- The head of the free stack is an empty slot that is not retired.
  pub free_head :
      (slots : List (Slot A)) (i : ℕ) (rest : List ℕ)
      → Stacked slots (i ∷ rest)
      → (slot : Slot A) × (get_elem? slots i ≡ some slot)
        × (slot.value ≡ none)
        × (slot.retired ≡ false)
  free_head slots i rest v =
      vacant_slot (get_elem? slots i) (count i rest) (ground (arith, v.free_exact i))

  abbrev pub fill : Slot A → A → Slot A
  fill slot value = record slot { value = some value }

  pub pop-Stacked :
      (slots : List (Slot A)) (i : ℕ) (rest : List ℕ) (slot : Slot A) (value : A)
      → Stacked slots (i ∷ rest)
      → get_elem? slots i ≡ some slot
      → slot.retired ≡ false
      → Stacked (set slots i (fill slot value)) rest
  pop-Stacked slots i rest slot value v found live =
      set-Stacked slots (i ∷ rest) rest i (fill slot value) v (get_elem?-lt slots i slot found)
        (ground (arith, found, v.slot_ok i)) (ground (arith, found, v.free_exact i))
        (λ s ne. ground arith)

  insert_from-Ok :
      (t : FlowTable A) (value : A) (free : List ℕ) → t.free ≡ free → Inv t → InsertOk t value
  unfolding insert insert_from
  insert_from-Ok t value [] e v = record {
    result = refused value;
    after = t;
    returns = rw e;
    after_Inv = v;
  }
  insert_from-Ok t value (i ∷ rest) e v =
      let stacked = subst (Stacked t.slots) e v.stacked in
      let (slot, found, empty, live) = free_head t.slots i rest stacked in
      record {
        result = stored (record { slot = i; generation = slot.generation });
        after = record t {
          free = rest;
          slots = set t.slots i (record slot { value = some value });
        };
        returns = ground (arith, e, found, live);
        after_Inv = record {
          stacked = pop-Stacked t.slots i rest slot value stacked found live;
          deferred_ok =
              set-AllDeferOk t.slots i slot (fill slot value) t.deferred found
                (inr (refl, λ z. refl)) v.deferred_ok;
          small = rw length-set v.small;
        };
      }

  -- `insert` on a table in order does not panic and leaves the table in order.
  pub insert-Ok : (t : FlowTable A) (value : A) → Inv t → InsertOk t value
  insert-Ok t value v = insert_from-Ok t value t.free refl v

  -- One round of `flush_deferred`.
  pub record FlushOk (slots : List (Slot A)) (free : List ℕ) (ids : List FlowId)
      (result : Option (List A × List (Slot A) × List ℕ)) : Type ℓ where
    pub removed : List A
    pub slots_after : List (Slot A)
    pub free_after : List ℕ
    pub returns : result ≡ some (removed, slots_after, free_after)
    pub stacked : Stacked slots_after free_after
    pub deferred_ok : AllDeferOk slots_after ids
    pub same_length : length slots_after ≡ length slots

  abbrev pub aged : Slot A → Slot A
  aged slot = record slot { generation = slot.generation + 1; value = none }

  abbrev pub retire : Slot A → Slot A
  retire slot = record slot { value = none; retired = true }

  aged-Stacked :
      (slots : List (Slot A)) (free : List ℕ) (i : ℕ) (slot : Slot A)
      → get_elem? slots i ≡ some slot
      → Stacked slots free
      → vacancy (some slot) ≡ 0
      → slot.retired ≡ false
      → slot.generation < u32_max
      → Stacked (set slots i (aged slot)) (i ∷ free)
  aged-Stacked slots free i slot found v taken live room =
      set-Stacked slots free (i ∷ free) i (aged slot) v (get_elem?-lt slots i slot found)
        (ground arith) (ground (arith, found, v.free_exact i)) (λ s ne. ground arith)

  retire-Stacked :
      (slots : List (Slot A)) (free : List ℕ) (i : ℕ) (slot : Slot A)
      → get_elem? slots i ≡ some slot
      → Stacked slots free
      → vacancy (some slot) ≡ 0
      → slot.generation ≡ u32_max
      → Stacked (set slots i (retire slot)) free
  retire-Stacked slots free i slot found v taken last =
      set-Stacked slots free free i (retire slot) v (get_elem?-lt slots i slot found) (ground arith)
        (ground (arith, found, v.free_exact i)) (λ s ne. refl)

  flush_found-Ok :
      (id : FlowId) (ids : List FlowId) (slots : List (Slot A)) (free : List ℕ) (removed : List A)
      (slot : Slot A)
      → get_elem? slots id.slot ≡ some slot
      → Stacked slots free
      → DeferOk (some slot) id.generation
      → AllDeferOk slots ids
      → FlushOk slots free ids (flush_slot id slots free removed (some slot))
  unfolding flush_slot
  flush_found-Ok id ids slots free removed slot found v ok rest =
      elim (Bool-cases (slot.generation == id.generation)) [
        | inl same ↦ elim (Bool-cases (ltb slot.generation u32_max)) [
          | inl room ↦ record {
            removed = push_value removed slot.value;
            slots_after = set slots id.slot (aged slot);
            free_after = id.slot ∷ free;
            returns = rw (same, room);
            stacked =
                aged-Stacked slots free id.slot slot found v (ok.1 (ground arith))
                  (ground (arith, found, v.slot_ok id.slot)) (ground arith);
            deferred_ok =
                set-AllDeferOk slots id.slot slot (aged slot) ids found (inl (omega arith)) rest;
            same_length = length-set slots id.slot _;
          }
          | inr last ↦ record {
            removed = push_value removed slot.value;
            slots_after = set slots id.slot (retire slot);
            free_after = free;
            returns = rw (same, last);
            stacked =
                retire-Stacked slots free id.slot slot found v (ok.1 (ground arith))
                  (ground (arith, found, v.slot_ok id.slot));
            deferred_ok =
                set-AllDeferOk slots id.slot slot (retire slot) ids found (inr (refl, λ z. refl))
                  rest;
            same_length = length-set slots id.slot _;
          }
        ]
        | inr stale ↦ record {
          removed = removed;
          slots_after = slots;
          free_after = free;
          returns = rw stale;
          stacked = v;
          deferred_ok = rest;
          same_length = refl;
        }
      ]

  pub flush_slot-Ok :
      (id : FlowId) (ids : List FlowId) (slots : List (Slot A)) (free : List ℕ) (removed : List A)
      → Stacked slots free
      → AllDeferOk slots (id ∷ ids)
      → FlushOk slots free ids (flush_slot id slots free removed (get_elem? slots id.slot))
  flush_slot-Ok id ids slots free removed v ok = elim (Option-cases (get_elem? slots id.slot)) [
    | inl missing ↦ absurd (subst (λ o. DeferOk o id.generation) missing ok.0)
    | inr (slot, found) ↦ rw found (
        flush_found-Ok id ids slots free removed slot found v
          (subst (λ o. DeferOk o id.generation) found ok.0) ok.1)
  ]

  flush_loop-Ok :
      (ids : List FlowId) (slots : List (Slot A)) (free : List ℕ) (removed : List A)
      → Stacked slots free
      → AllDeferOk slots ids
      → FlushOk slots free [] (flush_loop ids slots free removed)
  unfolding flush_loop
  flush_loop-Ok [] slots free removed v ok = record {
    removed = removed;
    slots_after = slots;
    free_after = free;
    returns = refl;
    stacked = v;
    deferred_ok = tt;
    same_length = refl;
  }
  flush_loop-Ok (id ∷ ids) slots free removed v ok =
      let one = flush_slot-Ok id ids slots free removed v ok in
      let more =
        flush_loop-Ok ids one.slots_after one.free_after one.removed one.stacked one.deferred_ok in
      record {
        removed = more.removed;
        slots_after = more.slots_after;
        free_after = more.free_after;
        returns = rw one.returns more.returns;
        stacked = more.stacked;
        deferred_ok = tt;
        same_length = more.same_length ∙ one.same_length;
      }

  -- On a table in order `flush_deferred` does not panic: it returns, empties the deferred list,
  -- keeps the number of slots, and leaves the table in order.
  pub flush_deferred-Inv :
      (t : FlowTable A)
      → Inv t
      → (removed : List A) × (t' : FlowTable A) × (flush_deferred t ≡ some (removed, t'))
        × Inv t'
        × (t'.deferred ≡ [])
        × (length t'.slots ≡ length t.slots)
  unfolding flush_deferred
  flush_deferred-Inv t v =
      let all = flush_loop-Ok t.deferred t.slots t.free [] v.stacked v.deferred_ok in
      (
        all.removed,
        record { slots = all.slots_after; free = all.free_after; deferred = [] },
        rw all.returns,
        record { stacked = all.stacked; deferred_ok = tt; small = rw all.same_length v.small },
        refl,
        all.same_length,
      )

  AllDeferOk-append :
      (slots : List (Slot A)) (ids : List FlowId) (id : FlowId)
      → AllDeferOk slots ids
      → DeferOk (get_elem? slots id.slot) id.generation
      → AllDeferOk slots (ids ++ id ∷ [])
  AllDeferOk-append slots [] id ok new = (new, tt)
  AllDeferOk-append slots (x ∷ ids) id ok new = (ok.0, AllDeferOk-append slots ids id ok.1 new)

  live-DeferOk : (o : Option (Slot A)) (g : ℕ) → is_some (value_at g o) ≡ true → DeferOk o g
  live-DeferOk none g h = cc
  live-DeferOk (some slot) g h = ground arith

  -- `defer_remove` keeps the table in order.
  pub defer_remove-Inv : (t : FlowTable A) (id : FlowId) → Inv t → Inv (defer_remove t id)
  unfolding defer_remove
  defer_remove-Inv t id v = elim (Bool-cases (is_some (get t id) && not (contains t.deferred id))) [
    | inl add ↦ rw add (record {
      stacked = v.stacked;
      deferred_ok =
          AllDeferOk-append t.slots t.deferred id v.deferred_ok
            (live-DeferOk (get_elem? t.slots id.slot) id.generation (ground arith));
      small = v.small;
    })
    | inr skip ↦ rw skip v
  ]
