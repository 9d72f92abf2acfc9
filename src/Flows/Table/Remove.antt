-- ===== src/Flows/Table/Remove.antt =====
-- One removal with its flush, as the engines do it, and the ids that `active_ids` lists.
use yayatht.Base.{ℕ, suc, ◌+◌, ◌-◌}
use yayatht.Base.{◌≡◌, refl, sym, subst, ◌∙◌, ◌⊎◌, inl, inr, true, false, ◌&&◌}
use yayatht.Base.{
  Option, none, some, List, [], ◌∷◌, arith, ltb, leb, ◌==◌, if◌then◌else◌, Bool-cases, Option-cases,
  is_some, if-cases,
}
use yayatht.Base.{get_elem?, set, replicate, get_elem?-set_self, get_elem?-set_ne, get_elem?-lt}
use yayatht.Base.{ℕ_discrete}
use yayatht.Base.{u32_max}
use mathlib.Core.Option
use yayatht.Flows.Token.{FlowId}
use yayatht.Flows.Table.{
  with_capacity, fresh_slot, range_from, Slot, FlowTable, Inserted, insert, insert_from, insert_in,
  get, get_mut, value_at, active_from, active_ids, same_id, contains, defer_remove, flush_slot,
  flush_loop, flush_deferred,
}
use yayatht.Flows.Table.Inv.{Inv, get-replicate}
use yayatht.Flows.Table.Keep.{flush_deferred-Inv, defer_remove-Inv}

-- Ids are the same or not.
pub same_id-cases : (a b : FlowId) → (a ≡ b) ⊎ (same_id a b ≡ false)
same_id-cases a b = elim (Bool-cases (same_id a b)) [
  | inl same ↦
      let s : a.slot ≡ b.slot = ground arith in
      let g : a.generation ≡ b.generation = ground arith in
      inl (λ i. record { slot = s i; generation = g i })
  | inr other ↦ inr other
]

List-cases : (xs : List ℕ) → (xs ≡ []) ⊎ ((x : ℕ) × (rest : List ℕ) × (xs ≡ x ∷ rest))
List-cases [] = inl refl
List-cases (x ∷ rest) = inr (x, rest, refl)

-- No id stands twice.
abbrev pub Once : List FlowId → Type 0
Once [] = Unit
Once (id ∷ ids) = (contains ids id ≡ false) × Once ids

module _ {ℓ} {A : Type ℓ} where
  -- On a table in order with nothing deferred, the removal of an id that finds a value gives back
  -- that value; then the id finds nothing and every other id what it found.
  pub record Removed (t : FlowTable A) (id : FlowId) (value : A) : Type ℓ where
    pub after : FlowTable A
    pub returns : flush_deferred (defer_remove t id) ≡ some (value ∷ [], after)
    pub after_Inv : Inv after
    pub settled : after.deferred ≡ []
    pub gone : get after id ≡ none
    pub others : (other : FlowId) → same_id other id ≡ false → get after other ≡ get t other

  get_found :
      (o : Option (Slot A)) (g : ℕ) (value : A)
      → value_at g o ≡ some value
      → (slot : Slot A) × (o ≡ some slot) × (slot.generation ≡ g) × (slot.value ≡ some value)
  get_found none g value e = absurd cc
  get_found (some slot) g value e = (slot, refl, ground arith, ground arith)

  -- What the flush of one occupied slot leaves.
  record Flushed (slots : List (Slot A)) (free : List ℕ) (id : FlowId) (value : A) (slot : Slot A)
      : Type ℓ where
    new : Slot A
    free_after : List ℕ
    returns :
        flush_slot id slots free [] (some slot)
        ≡ some (value ∷ [], set slots id.slot new, free_after)
    empty : new.value ≡ none

  flush_occupied :
      (slots : List (Slot A)) (free : List ℕ) (id : FlowId) (value : A) (slot : Slot A)
      → slot.generation ≡ id.generation
      → slot.value ≡ some value
      → Flushed slots free id value slot
  unfolding flush_slot
  flush_occupied slots free id value slot g v = elim (Bool-cases (ltb slot.generation u32_max)) [
    | inl room ↦ record {
      new = record slot { generation = slot.generation + 1; value = none };
      free_after = id.slot ∷ free;
      returns = ground (arith, room, g, v);
      empty = refl;
    }
    | inr last ↦ record {
      new = record slot { value = none; retired = true };
      free_after = free;
      returns = ground (arith, last, g, v);
      empty = refl;
    }
  ]

  pub remove_one :
      (t : FlowTable A) (id : FlowId) (value : A)
      → Inv t
      → t.deferred ≡ []
      → get t id ≡ some value
      → Removed t id value
  unfolding flush_deferred defer_remove get flush_loop
  remove_one t id value v d e =
      let (slot, found, current, occupied) =
        get_found (get_elem? t.slots id.slot) id.generation value e in
      let f = flush_occupied t.slots t.free id value slot current occupied in
      let slots = set t.slots id.slot f.new in
      let u : FlowTable A = record { slots = slots; free = f.free_after; deferred = [] } in
      let deferred : defer_remove t id ≡ record t { deferred = id ∷ [] } =
        ground (arith, d, found, current, occupied) in
      let done : flush_deferred (defer_remove t id) ≡ some (value ∷ [], u) =
        rw (deferred, found, f.returns) refl in
      let kept = flush_deferred-Inv (defer_remove t id) (defer_remove-Inv t id v) in
      let hit =
        get_elem?-set_self t.slots id.slot f.new (get_elem?-lt t.slots id.slot slot found) in
      record {
        after = u;
        returns = done;
        after_Inv = subst Inv (ground (arith, sym kept.2 ∙ done)) kept.3;
        settled = refl;
        gone = ground (arith, hit, f.empty);
        others = λ other ne. elim (ℕ_discrete id.slot other.slot) [
          | yes same ↦ ground (arith, hit, f.empty, found, current, same)
          | no apart ↦ ground (arith, get_elem?-set_ne t.slots id.slot other.slot f.new apart)
        ];
      }

  -- `get_mut` writes the value that its id finds, if there is one, and no other.
  pub get-get_mut :
      (t : FlowTable A) (id : FlowId) (f : A → A) (other : FlowId)
      → get (get_mut t id f) other
        ≡ (if same_id other id then Option.map f (get t other) else get t other)
  unfolding get get_mut
  get-get_mut t id f other = elim (Option-cases (get_elem? t.slots id.slot)) [
    | inl missing ↦ elim (ℕ_discrete id.slot other.slot) [
      | yes same ↦ ground (arith, same, missing)
      | no apart ↦ ground (arith, missing)
    ]
    | inr (slot, found) ↦ elim (Bool-cases (slot.generation == id.generation)) [
      | inl current ↦
          let new = record slot { value = Option.map f slot.value } in
          elim (ℕ_discrete id.slot other.slot) [
            | yes same ↦ ground (
              arith,
              found,
              current,
              same,
              get_elem?-set_self t.slots id.slot new (get_elem?-lt t.slots id.slot slot found),
            )
            | no apart ↦
                ground
                  (arith, found, current, get_elem?-set_ne t.slots id.slot other.slot new apart)
          ]
      | inr stale ↦ elim (ℕ_discrete id.slot other.slot) [
        | yes same ↦ ground (arith, found, stale, same)
        | no apart ↦ ground (arith, found, stale)
      ]
    ]
  ]

  contains-active_from :
      (i : ℕ) (slots : List (Slot A)) (id : FlowId)
      → contains (active_from i slots) id
        ≡ (leb i id.slot && is_some (value_at id.generation (get_elem? slots (id.slot - i))))
  unfolding active_from
  contains-active_from i [] id = ground arith
  contains-active_from i (slot ∷ slots) id = ground (arith, contains-active_from (suc i) slots id)

  -- `active_ids` lists the ids that find a value.
  pub contains-active_ids :
      (t : FlowTable A) (id : FlowId) → contains (active_ids t) id ≡ is_some (get t id)
  unfolding active_ids get
  contains-active_ids t id = ground (arith, contains-active_from 0 t.slots id)

  active_from-Once : (i : ℕ) (slots : List (Slot A)) → Once (active_from i slots)
  unfolding active_from
  active_from-Once i [] = tt
  active_from-Once i (slot ∷ slots) =
      if-cases Once (is_some slot.value)
        (λ t. (
          ground (
            arith,
            contains-active_from (suc i) slots (record { slot = i; generation = slot.generation }),
          ),
          active_from-Once (suc i) slots,
        ))
        (λ t. active_from-Once (suc i) slots)

  pub active_ids-Once : (t : FlowTable A) → Once (active_ids t)
  unfolding active_ids
  active_ids-Once t = active_from-Once 0 t.slots

  -- Insertion leaves the deferred ids alone.
  pub deferred-insert :
      (t u : FlowTable A) (value : A) (r : Inserted A)
      → insert t value ≡ some (r, u)
      → u.deferred ≡ t.deferred
  unfolding insert insert_from insert_in
  deferred-insert t u value r e = elim (List-cases t.free) [
    | inl empty ↦ ground (arith, empty)
    | inr (index, rest, taken) ↦ elim (Option-cases (get_elem? t.slots index)) [
      | inl missing ↦ ground (arith, taken, missing)
      | inr (slot, found) ↦ ground (arith, taken, found)
    ]
  ]

  pub deferred-get_mut :
      (t : FlowTable A) (id : FlowId) (f : A → A) → (get_mut t id f).deferred ≡ t.deferred
  unfolding get_mut
  deferred-get_mut t id f = refl

  pub get-with_capacity :
      (n : ℕ) (t : FlowTable A)
      → with_capacity n ≡ some t
      → (t.deferred ≡ []) × ((id : FlowId) → get t id ≡ none)
  unfolding with_capacity get
  get-with_capacity n t e =
      let made : t ≡ record {
        slots = replicate n (fresh_slot {A = A});
        free = range_from 0 n;
        deferred = [];
      } =
        ground (arith, e) in
      (
        ground (arith, made),
        λ id. ground (arith, made, get-replicate n id.slot (fresh_slot {A = A})),
      )
