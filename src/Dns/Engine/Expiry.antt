-- ===== src/Dns/Engine/Expiry.antt =====
-- `expire`: exactly the transactions past their deadline are failed.
use yayatht.Base.{ℕ, ◌≤◌}
use yayatht.Base.{◌≡◌, refl, ◌∙◌, ◌≢◌, inl, inr, Bool, true, false}
use yayatht.Base.{Option, none, some, List, [], ◌∷◌, arith, leb, if◌then◌else◌, Bool-cases}
use yayatht.Base.{length}
use yayatht.Base.{
  lookup, remove, lookup-remove_self, lookup-remove_ne, length-remove-le, Distinct, remove-Distinct,
  ℕ_discrete,
}
use yayatht.Dns.Engine.{Transaction, Engine, find, owed, expired_ids, expire_ids, expire}
use yayatht.Dns.Engine.Ids.{Inv}

-- Whether there is a transaction that is past its deadline.
abbrev pub is_due : ℕ → Option Transaction → Bool
is_due now none = false
is_due now (some t) = leb t.deadline now

-- The failures owed for the transactions of a map that are past their deadline.
abbrev pub owed_all : ℕ → List (ℕ × Transaction) → List (Transaction × List ℕ)
owed_all now [] = []
owed_all now ((id, t) ∷ rest) =
    let others = owed_all now rest in if leb t.deadline now then owed t ∷ others else others

-- The sweep over part of a map, in the whole map.
record Swept (now : ℕ) (part whole : List (ℕ × Transaction)) : Type 0 where
  replies : List (Transaction × List ℕ)
  left : List (ℕ × Transaction)
  returns : expire_ids (expired_ids now part) whole ≡ some (replies, left)
  owes : replies ≡ owed_all now part
  distinct : Distinct ℕ_discrete left
  fewer : length left ≤ length whole
  finds :
      (id : ℕ)
      → lookup ℕ_discrete id left
        ≡ (if is_due now (lookup ℕ_discrete id part) then none else lookup ℕ_discrete id whole)

Agrees : List (ℕ × Transaction) → List (ℕ × Transaction) → Type 0
Agrees [] whole = Unit
Agrees ((id, t) ∷ rest) whole = (lookup ℕ_discrete id whole ≡ some t) × Agrees rest whole

-- An entry that the rest of the part does not name can go.
Agrees-remove :
    (id : ℕ) (part whole : List (ℕ × Transaction))
    → lookup ℕ_discrete id part ≡ none
    → Agrees part whole
    → Agrees part (remove ℕ_discrete id whole)
unfolding Agrees lookup
Agrees-remove id [] whole e a = a
Agrees-remove id ((k, t) ∷ rest) whole e a =
    let apart : k ≢ id = λ q. ground (arith, q) in
    (
      lookup-remove_ne ℕ_discrete id k whole apart ∙ a.0,
      Agrees-remove id rest whole (ground (arith, apart)) a.1,
    )

kept :
    (now id : ℕ) (t : Transaction) (rest whole : List (ℕ × Transaction))
    → lookup ℕ_discrete id rest ≡ none
    → lookup ℕ_discrete id whole ≡ some t
    → leb t.deadline now ≡ false
    → Swept now rest whole
    → Swept now ((id, t) ∷ rest) whole
unfolding expired_ids expire_ids lookup
kept now id t rest whole n a late s = record {
  replies = s.replies;
  left = s.left;
  returns = rw late s.returns;
  owes = rw late s.owes;
  distinct = s.distinct;
  fewer = s.fewer;
  finds = λ k. elim (ℕ_discrete k id) [
    | yes q ↦ ground (arith, q, s.finds id, n)
    | no q ↦ ground (arith, q, s.finds k)
  ];
}

swept_out :
    (now id : ℕ) (t : Transaction) (rest whole : List (ℕ × Transaction))
    → lookup ℕ_discrete id rest ≡ none
    → lookup ℕ_discrete id whole ≡ some t
    → leb t.deadline now ≡ true
    → Swept now rest (remove ℕ_discrete id whole)
    → Swept now ((id, t) ∷ rest) whole
unfolding expired_ids expire_ids lookup
swept_out now id t rest whole n a late s = record {
  replies = owed t ∷ s.replies;
  left = s.left;
  returns = rw (late, a, s.returns) refl;
  owes = rw (late, s.owes) refl;
  distinct = s.distinct;
  fewer = omega (arith, s.fewer, length-remove-le ℕ_discrete id whole);
  finds = λ k. elim (ℕ_discrete k id) [
    | yes q ↦ ground (arith, q, s.finds id, n, lookup-remove_self ℕ_discrete id whole)
    | no q ↦ ground (arith, q, s.finds k, lookup-remove_ne ℕ_discrete id k whole)
  ];
}

sweep :
    (now : ℕ) (part whole : List (ℕ × Transaction))
    → Distinct ℕ_discrete part
    → Distinct ℕ_discrete whole
    → Agrees part whole
    → Swept now part whole
unfolding expired_ids expire_ids lookup Agrees
sweep now [] whole p w a = record {
  replies = [];
  left = whole;
  returns = refl;
  owes = refl;
  distinct = w;
  fewer = omega arith;
  finds = λ id. refl;
}
sweep now ((id, t) ∷ rest) whole p w a = elim (Bool-cases (leb t.deadline now)) [
  | inl late ↦ swept_out now id t rest whole p.0 a.0 late (
      sweep now rest (remove ℕ_discrete id whole) p.1 (remove-Distinct ℕ_discrete id whole w)
        (Agrees-remove id rest whole p.0 a.1))
  | inr early ↦ kept now id t rest whole p.0 a.0 early (sweep now rest whole p.1 w a.1)
]

Agrees-cons :
    (id : ℕ) (t : Transaction) (part whole : List (ℕ × Transaction))
    → lookup ℕ_discrete id part ≡ none
    → Agrees part whole
    → Agrees part ((id, t) ∷ whole)
unfolding Agrees lookup
Agrees-cons id t [] whole e a = a
Agrees-cons id t ((k, u) ∷ rest) whole e a =
    let apart : k ≢ id = λ q. ground (arith, q) in
    (ground (arith, apart, a.0), Agrees-cons id t rest whole (ground (arith, apart)) a.1)

Agrees-refl : (m : List (ℕ × Transaction)) → Distinct ℕ_discrete m → Agrees m m
unfolding Agrees lookup
Agrees-refl [] d = _
Agrees-refl ((id, t) ∷ m) d = (ground arith, Agrees-cons id t m m d.0 (Agrees-refl m d.1))

-- On an engine within its limits `expire` returns, with no failed `expect`: the failures owed for
-- exactly the transactions whose deadline has come; after it those are gone, every other one stands as
-- before, and the engine is within its limits.
pub expire_lem :
    (e : Engine) (now : ℕ)
    → Inv e
    → (g : Engine) × (expire e now ≡ some (owed_all now e.transactions, g))
      × ((id : ℕ) → find g id ≡ (if is_due now (find e id) then none else find e id))
      × Inv g
unfolding expire
expire_lem e now v =
    let s =
      sweep now e.transactions e.transactions v.distinct v.distinct
        (Agrees-refl e.transactions v.distinct) in
    (
      record e { transactions = s.left },
      rw (s.returns, ← s.owes) refl,
      s.finds,
      record {
        distinct = s.distinct;
        bounded = omega (arith, s.fewer, v.bounded);
        counter = v.counter;
      },
    )
