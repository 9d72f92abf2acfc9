-- ===== src/Flows/Table/Fresh.antt =====
-- What `insert` hands out: a new id, which finds the new value and disturbs no other id.
use yayatht.Base.{ℕ}
use yayatht.Base.{◌≡◌, refl, sym, ap, subst, ◌∙◌, false}
use yayatht.Base.{none, some, List, [], ◌∷◌, arith}
use yayatht.Base.{get_elem?, set, get_elem?-set_self, get_elem?-set_ne, get_elem?-lt}
use native.Mathlib.Decide.{ℕ_discrete}
use yayatht.Flows.Token.{FlowId}
use yayatht.Flows.Table.{Slot, FlowTable, stored, refused, insert_from, insert, get, same_id}
use yayatht.Flows.Table.Inv.{count, vacancy, Stacked, Inv}
use yayatht.Flows.Table.Keep.{fill, free_head}

module _ {ℓ} {A : Type ℓ} where
  -- A successful insertion popped an empty slot and filled it.
  record Filled (t u : FlowTable A) (value : A) (id : FlowId) : Type ℓ where
    slot : Slot A
    found : get_elem? t.slots id.slot ≡ some slot
    empty : slot.value ≡ none
    current : id.generation ≡ slot.generation
    written : u.slots ≡ set t.slots id.slot (fill slot value)

  insert_from-Filled :
      (t u : FlowTable A) (value : A) (id : FlowId) (free : List ℕ)
      → t.free ≡ free
      → Inv t
      → insert t value ≡ some (stored id, u)
      → Filled t u value id
  unfolding insert insert_from
  insert_from-Filled t u value id [] f v e = absurd (ground (arith, f))
  insert_from-Filled t u value id (i ∷ rest) f v e =
      let (slot, found, empty, live) =
        free_head t.slots i rest (subst (Stacked t.slots) f v.stacked) in
      let same : i ≡ id.slot = ground (arith, f, found, live) in
      record {
        slot = slot;
        found = subst (λ j. get_elem? t.slots j ≡ some slot) same found;
        empty = empty;
        current = ground (arith, f, found, live);
        written =
            subst (λ j. u.slots ≡ set t.slots j (fill slot value)) same
              (ground (arith, f, found, live));
      }

  -- On a table in order, an insertion that hands out an id stores the value under it; the id found
  -- nothing before, and what every other id finds is unchanged.
  pub get-insert :
      (t u : FlowTable A) (value : A) (id : FlowId)
      → Inv t
      → insert t value ≡ some (stored id, u)
      → (get u id ≡ some value)
        × (get t id ≡ none)
        × ((other : FlowId) → same_id other id ≡ false → get u other ≡ get t other)
  unfolding get
  get-insert t u value id v e =
      let f = insert_from-Filled t u value id t.free refl v e in
      let hit =
        get_elem?-set_self t.slots id.slot (fill f.slot value)
          (get_elem?-lt t.slots id.slot f.slot f.found) in
      (
        ground (arith, f.written, hit, f.current),
        ground (arith, f.found, f.empty),
        λ other ne. elim (ℕ_discrete id.slot other.slot) [
          | yes same ↦ ground (arith, f.written, hit, f.found, f.empty, f.current, same)
          | no apart ↦ ground (
            arith,
            f.written,
            get_elem?-set_ne t.slots id.slot other.slot (fill f.slot value) apart,
          )
        ],
      )

  -- On a table in order, insertion is refused only when every slot is occupied or retired, and the
  -- value comes back.
  pub insert-refused :
      (t u : FlowTable A) (value back : A)
      → Inv t
      → insert t value ≡ some (refused back, u)
      → (back ≡ value) × (u ≡ t) × ((s : ℕ) → vacancy (get_elem? t.slots s) ≡ 0)
  unfolding insert insert_from
  insert-refused t u value back v e = refused_from t.free refl
    where
      refused_from :
          (free : List ℕ)
          → t.free ≡ free
          → (back ≡ value) × (u ≡ t) × ((s : ℕ) → vacancy (get_elem? t.slots s) ≡ 0)
      refused_from [] f =
          (ground (arith, f), ground (arith, f), λ s. sym (v.stacked.free_exact s) ∙ ap (count s) f)
      refused_from (i ∷ rest) f =
          let (slot, found, empty, live) =
            free_head t.slots i rest (subst (Stacked t.slots) f v.stacked) in
          absurd (ground (arith, f, found, live))
