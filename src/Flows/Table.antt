-- ===== src/Flows/Table.antt =====
-- The flow table of crates/dataplane/src/flow_table.rs: slots with generations, a free stack, and
-- removals that are deferred to the end of an event batch. A panic (an index out of range, a failed
-- assertion) is `none`.
mod Tests
pub mod Inv
pub mod Keep
pub mod Stale
pub mod History
pub mod Fresh
pub mod Remove
use yayatht.Base.{ℕ, zero, suc, ◌+◌, ◌-◌, ◌*◌, ◌/◌, ◌%◌, ◌^◌, ◌≤◌, ◌<◌, min, max, bit_and, bit_or}
use yayatht.Base.{
  ◌≡◌, refl, sym, ap, subst, ◌∙◌, ◌≢◌, ◌↔◌, ◌⊎◌, inl, inr, Bool, true, false, not, ◌&&◌, ◌||◌,
}
use yayatht.Base.{
  Option, none, some, List, [], ◌∷◌, ◌++◌, map, arith, ltb, leb, ◌==◌, if◌then◌else◌, ==_iff,
  Bool-cases, Option-cases, is_some,
}
use yayatht.Base.{
  length, get_elem?, get_or, set, take, drop, replicate, slice, splice, All, length-append,
  length-set, get_elem?-set_self, get_elem?-set_ne, get_elem?-lt, length-take, length-drop,
  length-replicate, length-splice, splice-nil, splice-splice, splice-zero, take-append, drop-append,
  take_all, drop-drop,
}
use yayatht.Base.{
  u8_max, u16_max, u32_max, u64_max, IsU8, IsU16, IsU32, u8, u16, u32, u64, add32, sub32, ◌<<<◌,
  ◌>>>◌, be16, bytes16, be32, bytes32, be16-bytes16, be32-bytes32,
}
use yayatht.Base.{
  zero-bit_or, bit_or-zero, bit_and-zero, bit_or_cut, bit_and_cut, bit_or_fields, bit_and_mask,
  bit_or_insert, bit_and_field,
}
use mathlib.Core.Option
pub use yayatht.Base.{◌>>=◌}
use yayatht.Flows.Token.{FlowId}

pub record Slot {ℓ} (A : Type ℓ) : Type ℓ where
  pub generation : ℕ
  pub value : Option A
  pub retired : Bool

-- The head of `free` is the back of the vector, where it is pushed and popped.
pub record FlowTable {ℓ} (A : Type ℓ) : Type ℓ where
  pub slots : List (Slot A)
  pub free : List ℕ
  pub deferred : List FlowId

-- `Result<FlowId, T>` of `insert`.
pub data Inserted {ℓ} (A : Type ℓ) : Type ℓ where
  stored : FlowId → Inserted A
  refused : A → Inserted A

-- `FlowId`'s derived equality.
abbrev pub same_id : FlowId → FlowId → Bool
same_id a b = a.slot == b.slot && a.generation == b.generation

abbrev pub contains : List FlowId → FlowId → Bool
contains [] id = false
contains (x ∷ xs) id = same_id x id || contains xs id

-- The indices from `first` on, `count` of them.
abbrev pub range_from : ℕ → ℕ → List ℕ
range_from first zero = []
range_from first (suc count) = first ∷ range_from (suc first) count

module _ {ℓ} {A : Type ℓ} where
  abbrev pub fresh_slot : Slot A
  fresh_slot = record { generation = 1; value = none; retired = false }

  unfoldable pub with_capacity : ℕ → Option (FlowTable A)
  with_capacity capacity =
      if leb capacity (1 <<< 20)
      then some (record {
        slots = replicate capacity fresh_slot;
        free = range_from 0 capacity;
        deferred = [];
      })
      else none

  unfoldable pub insert_in :
      FlowTable A → A → ℕ → List ℕ → Option (Slot A) → Option (Inserted A × FlowTable A)
  insert_in t value index rest none = none
  insert_in t value index rest (some slot) =
      if slot.retired
      then some (refused value, record t { free = rest })
      else some (
        stored (record { slot = index; generation = slot.generation }),
        record t { free = rest; slots = set t.slots index (record slot { value = some value }) },
      )

  unfoldable pub insert_from : FlowTable A → A → List ℕ → Option (Inserted A × FlowTable A)
  unfolding insert_in
  insert_from t value [] = some (refused value, t)
  insert_from t value (index ∷ rest) = insert_in t value index rest (get_elem? t.slots index)

  unfoldable pub insert : FlowTable A → A → Option (Inserted A × FlowTable A)
  unfolding insert_from
  insert t value = insert_from t value t.free

  abbrev pub value_at : ℕ → Option (Slot A) → Option A
  value_at generation none = none
  value_at generation (some slot) = if slot.generation == generation then slot.value else none

  unfoldable pub get : FlowTable A → FlowId → Option A
  get t id = value_at id.generation (get_elem? t.slots id.slot)

  -- What a caller does through `get_mut`: it replaces the value that it is handed.
  abbrev pub write_slot : List (Slot A) → FlowId → (A → A) → Option (Slot A) → List (Slot A)
  write_slot slots id f none = slots
  write_slot slots id f (some slot) =
      if slot.generation == id.generation
      then set slots id.slot (record slot { value = Option.map f slot.value })
      else slots

  pub get_mut : FlowTable A → FlowId → (A → A) → FlowTable A
  get_mut t id f = record t { slots = write_slot t.slots id f (get_elem? t.slots id.slot) }

  pub defer_remove : FlowTable A → FlowId → FlowTable A
  unfolding get
  defer_remove t id =
      if is_some (get t id) && not (contains t.deferred id)
      then record t { deferred = t.deferred ++ id ∷ [] }
      else t

  pub active_from : ℕ → List (Slot A) → List FlowId
  active_from i [] = []
  active_from i (slot ∷ slots) =
      let rest = active_from (suc i) slots in
      if is_some slot.value then record { slot = i; generation = slot.generation } ∷ rest else rest

  pub active_ids : FlowTable A → List FlowId
  unfolding active_from
  active_ids t = active_from 0 t.slots

  abbrev pub push_value : List A → Option A → List A
  push_value removed none = removed
  push_value removed (some value) = removed ++ value ∷ []

  -- The body of the loop of `flush_deferred`, for the slot that it found.
  pub flush_slot :
      FlowId
      → List (Slot A)
      → List ℕ
      → List A
      → Option (Slot A)
      → Option (List A × List (Slot A) × List ℕ)
  flush_slot id slots free removed none = none
  flush_slot id slots free removed (some slot) =
      if not (slot.generation == id.generation)
      then some (removed, slots, free)
      else if ltb slot.generation u32_max
      then some (
        push_value removed slot.value,
        set slots id.slot (record slot { generation = slot.generation + 1; value = none }),
        id.slot ∷ free,
      )
      else some (
        push_value removed slot.value,
        set slots id.slot (record slot { value = none; retired = true }),
        free,
      )

  pub flush_loop :
      List FlowId → List (Slot A) → List ℕ → List A → Option (List A × List (Slot A) × List ℕ)
  flush_loop [] slots free removed = some (removed, slots, free)
  flush_loop (id ∷ ids) slots free removed = do
    (removed', slots', free') ← flush_slot id slots free removed (get_elem? slots id.slot)
    flush_loop ids slots' free' removed'

  pub flush_deferred : FlowTable A → Option (List A × FlowTable A)
  unfolding flush_loop
  flush_deferred t = do
    (removed, slots, free) ← flush_loop t.deferred t.slots t.free []
    some (removed, record { slots = slots; free = free; deferred = [] })
