-- ===== src/Dns/Engine/Ids.antt =====
-- The ids under which queries are forwarded: the search for a free one ends, and the engine stays
-- within its limits.
use yayatht.Base.{ℕ, zero, suc, ◌+◌, ◌-◌, ◌%◌, ◌^◌, ◌≤◌, ◌<◌}
use yayatht.Base.{◌≡◌, refl, ◌≢◌, inl, inr}
use yayatht.Base.{none, some, List, arith, Option-cases}
use yayatht.Base.{length}
use yayatht.Base.{lookup, remove, lookup-remove_ne, length-remove-lt, Distinct, ℕ_discrete}
use yayatht.Base.{IsU16, u16}
use yayatht.Dns.Engine.{max_transactions, Transaction, Engine, find, allocate_from, allocate_id}

-- Removing a key that lies beyond the ids searched makes none of them free.
allocate_from-remove :
    (n k id : ℕ) (m : List (ℕ × Transaction))
    → IsU16 id
    → IsU16 k
    → n ≤ (k + 2 ^ 16 - id) % 2 ^ 16
    → allocate_from n m id ≡ none
    → allocate_from n (remove ℕ_discrete k m) id ≡ none
unfolding allocate_from
allocate_from-remove zero k id m hi hk far e = refl
allocate_from-remove (suc n) k id m hi hk far e =
    let apart : id ≢ k = λ q. absurd (omega (arith, q)) in
    let same = lookup-remove_ne ℕ_discrete k id m apart in
    let later = allocate_from-remove n k (u16 (id + 1)) m (omega arith) hk (omega arith) in
    ground (arith, same, later)

-- A search of n ids that finds none has met n entries.
allocate_from-none :
    (n id : ℕ) (m : List (ℕ × Transaction))
    → IsU16 id
    → n ≤ 2 ^ 16
    → allocate_from n m id ≡ none
    → n ≤ length m
unfolding allocate_from
allocate_from-none zero id m hi h e = omega arith
allocate_from-none (suc n) id m hi h e =
    let taken : lookup ℕ_discrete id m ≢ none = λ q. ground (arith, q) in
    let rest : allocate_from n m (u16 (id + 1)) ≡ none = ground (arith, taken) in
    let fewer =
      allocate_from-none n (u16 (id + 1)) (remove ℕ_discrete id m) (omega arith) (omega arith)
        (allocate_from-remove n id (u16 (id + 1)) m (omega arith) hi (omega arith) rest) in
    omega (arith, fewer, length-remove-lt ℕ_discrete id m taken)

-- An id that the search finds is free.
allocate_from-some :
    (n id : ℕ) (m : List (ℕ × Transaction)) (found next : ℕ)
    → IsU16 id
    → allocate_from n m id ≡ some (found, next)
    → (lookup ℕ_discrete found m ≡ none) × IsU16 found × (next ≡ u16 (found + 1))
unfolding allocate_from
allocate_from-some zero id m found next hi e = cc
allocate_from-some (suc n) id m found next hi e =
    ground (arith, allocate_from-some n (u16 (id + 1)) m found next (omega arith))

-- An engine within its limits: no id twice, at most 512 queries outstanding, a 16-bit counter.
pub record Inv (e : Engine) : Type 0 where
  pub distinct : Distinct ℕ_discrete e.transactions
  pub bounded : length e.transactions ≤ max_transactions
  pub counter : IsU16 e.next_id

-- With fewer than 2 ^ 16 queries outstanding the search for an id ends within 2 ^ 16 rounds, with an id
-- of 16 bits that no outstanding query has.
pub allocate_id_lem :
    (e : Engine)
    → IsU16 e.next_id
    → length e.transactions < 2 ^ 16
    → (id next : ℕ) × (allocate_id e ≡ some (id, next))
      × (find e id ≡ none)
      × IsU16 id
      × (next ≡ u16 (id + 1))
unfolding allocate_id
allocate_id_lem e c h = elim (Option-cases (allocate_from (2 ^ 16) e.transactions e.next_id)) [
  | inl q ↦
      absurd (omega (arith, allocate_from-none (2 ^ 16) e.next_id e.transactions c (omega arith) q))
  | inr ((id, next), q) ↦
      let (free, small, after) = allocate_from-some (2 ^ 16) e.next_id e.transactions id next c q in
      (id, next, q, free, small, after)
]
