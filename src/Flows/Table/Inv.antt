-- ===== src/Flows/Table/Inv.antt =====
-- The representation invariant of the flow table, and that every operation keeps it.
use yayatht.Base.{ℕ, zero, suc, ◌+◌, ◌^◌, ◌≤◌, ◌<◌}
use yayatht.Base.{◌≡◌, sym, subst, ◌∙◌, ◌≢◌, ◌⊎◌, true, ◌&&◌, ◌||◌}
use yayatht.Base.{Option, none, some, List, [], ◌∷◌, arith, ltb, leb, ◌==◌, if◌then◌else◌, is_some}
use yayatht.Base.{
  length, get_elem?, set, replicate, All, get_elem?-set_self, get_elem?-set_ne, get_elem?-lt,
  length-replicate,
}
use yayatht.Base.{u32_max}
use native.Mathlib.Decide.{ℕ_discrete}
use yayatht.Flows.Token.{FlowId}
use yayatht.Flows.Table.{Slot, FlowTable, range_from, fresh_slot, with_capacity}

abbrev pub count : ℕ → List ℕ → ℕ
count s [] = 0
count s (x ∷ xs) = (if x == s then 1 else 0) + count s xs

pub count-range :
    (s first n : ℕ)
    → count s (range_from first n) ≡ (if leb first s && ltb s (first + n) then 1 else 0)
count-range s first zero = ground arith
count-range s first (suc n) = ground (arith, count-range s (suc first) n)

module _ {ℓ} {A : Type ℓ} where
  -- How often an index belongs on the free stack.
  abbrev pub vacancy : Option (Slot A) → ℕ
  vacancy none = 0
  vacancy (some slot) = if is_some slot.value || slot.retired then 0 else 1

  abbrev pub SlotOk : Option (Slot A) → Type ℓ
  SlotOk none = Unit
  SlotOk (some slot) =
      (1 ≤ slot.generation)
      × (slot.generation ≤ u32_max)
      × (slot.retired ≡ true → (slot.generation ≡ u32_max) × (slot.value ≡ none))

  -- A deferred id names a slot that is not on the free stack under the same generation.
  abbrev pub DeferOk : Option (Slot A) → ℕ → Type 0
  DeferOk none generation = ⊥
  DeferOk (some slot) generation =
      (generation ≤ slot.generation) × (generation ≡ slot.generation → vacancy (some slot) ≡ 0)

  -- The free stack holds exactly the empty slots that are not retired, each once.
  pub record Stacked (slots : List (Slot A)) (free : List ℕ) : Type ℓ where
    pub free_exact : (s : ℕ) → count s free ≡ vacancy (get_elem? slots s)
    pub slot_ok : (s : ℕ) → SlotOk (get_elem? slots s)

  abbrev pub AllDeferOk : List (Slot A) → List FlowId → Type 0
  AllDeferOk slots = All (λ id. DeferOk (get_elem? slots id.slot) id.generation)

  pub record Inv (t : FlowTable A) : Type ℓ where
    pub stacked : Stacked t.slots t.free
    pub deferred_ok : AllDeferOk t.slots t.deferred
    pub small : length t.slots ≤ 2 ^ 20

  -- A write to one slot keeps the stack right if it does so at that slot.
  pub set-Stacked :
      (slots : List (Slot A)) (free free' : List ℕ) (i : ℕ) (new : Slot A)
      → Stacked slots free
      → i < length slots
      → SlotOk (some new)
      → count i free' ≡ vacancy (some new)
      → ((s : ℕ) → i ≢ s → count s free' ≡ count s free)
      → Stacked (set slots i new) free'
  set-Stacked slots free free' i new v hi ok here there = record {
    free_exact = λ s. elim (ℕ_discrete i s) [
      | yes e ↦
          subst (λ j. count j free' ≡ vacancy (get_elem? (set slots i new) j)) e
            (rw (get_elem?-set_self slots i new hi) here)
      | no ne ↦ rw (get_elem?-set_ne slots i s new ne) (there s ne ∙ v.free_exact s)
    ];
    slot_ok = λ s. elim (ℕ_discrete i s) [
      | yes e ↦
          subst (λ j. SlotOk (get_elem? (set slots i new) j)) e
            (rw (get_elem?-set_self slots i new hi) ok)
      | no ne ↦ rw (get_elem?-set_ne slots i s new ne) (v.slot_ok s)
    ];
  }

  -- A deferred id stays in order under a write that ages its slot or leaves its generation taken.
  set-DeferOk :
      (slots : List (Slot A)) (i : ℕ) (old new : Slot A) (s g : ℕ)
      → get_elem? slots i ≡ some old
      → (old.generation < new.generation)
        ⊎ ((old.generation ≡ new.generation) × (vacancy (some old) ≡ 0 → vacancy (some new) ≡ 0))
      → DeferOk (get_elem? slots s) g
      → DeferOk (get_elem? (set slots i new) s) g
  set-DeferOk slots i old new s g found kept ok = elim (ℕ_discrete i s) [
    | yes e ↦
        subst (λ j. DeferOk (get_elem? (set slots i new) j) g) e
          (rw (get_elem?-set_self slots i new (get_elem?-lt slots i old found))
            (aged (subst (λ j. DeferOk (get_elem? slots j) g) (sym e) ok)))
    | no ne ↦ rw (get_elem?-set_ne slots i s new ne) ok
  ]
    where
      aged : DeferOk (get_elem? slots i) g → DeferOk (some new) g
      aged d = ground (arith, subst (λ o. DeferOk o g) found d)

  pub set-AllDeferOk :
      (slots : List (Slot A)) (i : ℕ) (old new : Slot A) (ids : List FlowId)
      → get_elem? slots i ≡ some old
      → (old.generation < new.generation)
        ⊎ ((old.generation ≡ new.generation) × (vacancy (some old) ≡ 0 → vacancy (some new) ≡ 0))
      → AllDeferOk slots ids
      → AllDeferOk (set slots i new) ids
  set-AllDeferOk slots i old new [] found kept ok = tt
  set-AllDeferOk slots i old new (id ∷ ids) found kept ok = (
    set-DeferOk slots i old new id.slot id.generation found kept ok.0,
    set-AllDeferOk slots i old new ids found kept ok.1,
  )

  pub get-replicate :
      (n s : ℕ) (slot : Slot A)
      → get_elem? (replicate n slot) s ≡ (if ltb s n then some slot else none)
  get-replicate zero s slot = ground arith
  get-replicate (suc n) zero slot = ground arith
  get-replicate (suc n) (suc s) slot = ground (arith, get-replicate n s slot)

  -- A new table of up to 2 ^ 20 slots is made, is in order and has all slots free.
  pub with_capacity-Inv :
      (n : ℕ)
      → n ≤ 2 ^ 20
      → (t : FlowTable A) × (with_capacity n ≡ some t) × Inv t × (length t.slots ≡ n)
  unfolding with_capacity
  with_capacity-Inv n h = (
    record { slots = replicate n (fresh_slot {A = A}); free = range_from 0 n; deferred = [] },
    ground arith,
    record {
      stacked = record {
        free_exact = λ s. ground (arith, count-range s 0 n, get-replicate n s fresh_slot);
        slot_ok = λ s. rw (get-replicate n s fresh_slot) (ground arith);
      };
      deferred_ok = tt;
      small = omega (arith, length-replicate n (fresh_slot {A = A}));
    },
    length-replicate n (fresh_slot {A = A}),
  )
