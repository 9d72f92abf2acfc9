-- ===== src/Flows/Table/History.antt =====
-- Histories of a flow table: any sequence of operations keeps the invariant, and an id that was
-- flushed never finds a value again.
use yayatht.Base.{ℕ}
use yayatht.Base.{◌≡◌, refl, sym, subst, ◌∙◌, inl, inr, true, not, ◌&&◌}
use yayatht.Base.{Option, none, some, List, [], ◌∷◌, arith, ◌==◌, Bool-cases, Option-cases, is_some}
use yayatht.Base.{get_elem?, set, length-set, get_elem?-lt}
use mathlib.Core.Option
use yayatht.Flows.Token.{FlowId}
use yayatht.Flows.Table.{
  Slot, FlowTable, Inserted, insert_from, insert, value_at, get, get_mut, write_slot, defer_remove,
  flush_loop, flush_deferred, contains,
}
use yayatht.Flows.Table.Inv.{vacancy, SlotOk, Inv, set-Stacked, set-AllDeferOk}
use yayatht.Flows.Table.Keep.{fill, insert-Ok, flush_deferred-Inv, defer_remove-Inv}
use yayatht.Flows.Table.Stale.{Dead, Ages, here, write, Dead-Ages, flush_loop-Ages, flush_loop-Dead}

module _ {ℓ} {A : Type ℓ} where
  -- One operation on a table.
  pub data Step (t : FlowTable A) : FlowTable A → Type ℓ where
    inserts :
        (value : A) {r : Inserted A} {u : FlowTable A} → insert t value ≡ some (r, u) → Step t u
    mutates : (id : FlowId) (f : A → A) → Step t (get_mut t id f)
    defers : (id : FlowId) → Step t (defer_remove t id)
    flushes : {removed : List A} {u : FlowTable A} → flush_deferred t ≡ some (removed, u) → Step t u

  pub data Reach (t : FlowTable A) : FlowTable A → Type ℓ where
    start : Reach t t
    next : {u w : FlowTable A} → Reach t u → Step u w → Reach t w

  -- `insert` writes one slot at most.
  insert-Ages :
      (t u : FlowTable A) (value : A) (r : Inserted A) (free : List ℕ)
      → t.free ≡ free
      → insert t value ≡ some (r, u)
      → Ages t.slots u.slots
  unfolding insert insert_from
  insert-Ages t u value r [] f e = subst (Ages t.slots) (ground (arith, f)) here
  insert-Ages t u value r (i ∷ rest) f e = elim (Option-cases (get_elem? t.slots i)) [
    | inl missing ↦ absurd (ground (arith, f, missing))
    | inr (slot, found) ↦ elim (Bool-cases slot.retired) [
      | inl old ↦ subst (Ages t.slots) (ground (arith, f, found, old)) here
      | inr live ↦
          subst (Ages t.slots) {x = set t.slots i (fill slot value)}
            (ground (arith, f, found, live))
            (write i slot (fill slot value) here found (inr (refl, λ q. q)))
    ]
  ]

  mutate-Ages : (t : FlowTable A) (id : FlowId) (f : A → A) → Ages t.slots (get_mut t id f).slots
  unfolding get_mut
  mutate-Ages t id f = elim (Option-cases (get_elem? t.slots id.slot)) [
    | inl missing ↦ rw (missing, write_slot) here
    | inr (slot, found) ↦ elim (Bool-cases (slot.generation == id.generation)) [
      | inl same ↦
          rw (found, write_slot)
            (rw same (
              write id.slot slot (record slot { value = Option.map f slot.value }) here found
                (inr (refl, λ q. q))))
      | inr other ↦ rw (found, write_slot) (rw other here)
    ]
  ]

  flush-Ages :
      (t u : FlowTable A) (removed : List A)
      → flush_deferred t ≡ some (removed, u)
      → Ages t.slots u.slots
  unfolding flush_deferred
  flush-Ages t u removed e = elim (Option-cases (flush_loop t.deferred t.slots t.free [])) [
    | inl failed ↦ absurd (ground (arith, failed))
    | inr (out, done) ↦
        subst (Ages t.slots) (ground (arith, done))
          (flush_loop-Ages t.deferred t.slots t.slots t.free [] out here done)
  ]

  defer-Ages : (t : FlowTable A) (id : FlowId) → Ages t.slots (defer_remove t id).slots
  unfolding defer_remove
  defer-Ages t id = elim (Bool-cases (is_some (get t id) && not (contains t.deferred id))) [
    | inl add ↦ rw add here
    | inr skip ↦ rw skip here
  ]

  Step-Ages : {t u : FlowTable A} → Step t u → Ages t.slots u.slots
  Step-Ages (inserts value e) = insert-Ages _ _ value _ _ refl e
  Step-Ages (mutates id f) = mutate-Ages _ id f
  Step-Ages (defers id) = defer-Ages _ id
  Step-Ages (flushes e) = flush-Ages _ _ _ e

  mapped-vacancy :
      (slot : Slot A) (f : A → A)
      → vacancy (some (record slot { value = Option.map f slot.value })) ≡ vacancy (some slot)
  mapped-vacancy slot f = elim (Option-cases slot.value) [ inl e ↦ rw e | inr (a, e) ↦ rw e ]

  mapped-none : (f : A → A) (o : Option A) → o ≡ none → Option.map f o ≡ none
  mapped-none f o e = rw e

  -- Writing through `get_mut` keeps the table in order.
  pub get_mut-Inv : (t : FlowTable A) (id : FlowId) (f : A → A) → Inv t → Inv (get_mut t id f)
  unfolding get_mut
  get_mut-Inv t id f v = elim (Option-cases (get_elem? t.slots id.slot)) [
    | inl missing ↦ rw (missing, write_slot) v
    | inr (slot, found) ↦ elim (Bool-cases (slot.generation == id.generation)) [
      | inl same ↦ rw (found, write_slot) (rw same (written slot found))
      | inr other ↦ rw (found, write_slot) (rw other v)
    ]
  ]
    where
      written :
          (slot : Slot A)
          → get_elem? t.slots id.slot ≡ some slot
          → Inv (record t {
            slots = set t.slots id.slot (record slot { value = Option.map f slot.value });
          })
      written slot found =
          let new = record slot { value = Option.map f slot.value } in
          let same = mapped-vacancy slot f in
          record {
            stacked =
                set-Stacked t.slots t.free t.free id.slot new v.stacked
                  (get_elem?-lt t.slots id.slot slot found)
                  (ground (arith, found, v.stacked.slot_ok id.slot, mapped-none f slot.value))
                  (v.stacked.free_exact id.slot ∙ rw found (sym same)) (λ s ne. refl);
            deferred_ok =
                set-AllDeferOk t.slots id.slot slot new t.deferred found (inr (refl, λ z. same ∙ z))
                  v.deferred_ok;
            small = rw length-set v.small;
          }

  -- Every operation keeps the table in order.
  pub Step-Inv : {t u : FlowTable A} → Step t u → Inv t → Inv u
  Step-Inv {t} {u} (inserts value e) v =
      let i = insert-Ok t value v in subst Inv (ground (arith, sym i.returns ∙ e)) i.after_Inv
  Step-Inv {t} (mutates id f) v = get_mut-Inv t id f v
  Step-Inv {t} (defers id) v = defer_remove-Inv t id v
  Step-Inv {t} {u} (flushes e) v =
      let f = flush_deferred-Inv t v in subst Inv (ground (arith, sym f.2 ∙ e)) f.3

  -- After any sequence of operations on a table in order the table is in order: the free stack names
  -- every empty slot that is not retired once, and nothing else.
  pub Reach-Inv : {t u : FlowTable A} → Reach t u → Inv t → Inv u
  Reach-Inv start v = v
  Reach-Inv (next r s) v = Step-Inv s (Reach-Inv r v)

  Reach-Dead :
      (s g : ℕ) {t u : FlowTable A}
      → Reach t u
      → Dead (get_elem? t.slots s) g
      → Dead (get_elem? u.slots s) g
  Reach-Dead s g start d = d
  Reach-Dead s g (next r st) d = Dead-Ages s g (Step-Ages st) (Reach-Dead s g r d)

  flush-Dead :
      (t u : FlowTable A) (id : FlowId) (removed : List A)
      → Inv t
      → contains t.deferred id ≡ true
      → flush_deferred t ≡ some (removed, u)
      → Dead (get_elem? u.slots id.slot) id.generation
  unfolding flush_deferred
  flush-Dead t u id removed v has e =
      elim (Option-cases (flush_loop t.deferred t.slots t.free [])) [
        | inl failed ↦ absurd (ground (arith, failed))
        | inr (out, done) ↦
            subst (λ l. Dead (get_elem? l id.slot) id.generation) {x = out.1} (ground (arith, done))
              (flush_loop-Dead t.deferred id t.slots t.free [] out has v.stacked v.deferred_ok done)
      ]

  Dead-value : (o : Option (Slot A)) (g : ℕ) → SlotOk o → Dead o g → value_at g o ≡ none
  Dead-value none g ok d = refl
  Dead-value (some slot) g ok d = ground arith

  -- Once an id that was deferred is flushed from a table in order, `get` finds nothing under it, now
  -- and after any later operations, whatever they insert.
  pub get-flushed :
      {t u w : FlowTable A} (id : FlowId) {removed : List A}
      → Inv t
      → contains t.deferred id ≡ true
      → flush_deferred t ≡ some (removed, u)
      → Reach u w
      → get w id ≡ none
  unfolding get
  get-flushed {t} {u} {w} id {removed} v has e r =
      let w_Inv = Reach-Inv r (Step-Inv (flushes e) v) in
      Dead-value (get_elem? w.slots id.slot) id.generation (w_Inv.stacked.slot_ok id.slot)
        (Reach-Dead id.slot id.generation r (flush-Dead t u id removed v has e))
