-- ===== src/Reactor/Pending/Stream.antt =====
-- The queue is a stream of bytes: what is consumed is what was pushed, in order.
use yayatht.Base.{ℕ, ◌+◌, ◌-◌, ◌≤◌, ◌<◌, min}
use yayatht.Base.{◌≡◌, refl, sym, ap, subst, ◌∙◌, inl, inr}
use yayatht.Base.{
  Option, none, some, List, [], ◌∷◌, ◌++◌, arith, ltb, leb, ◌==◌, if◌then◌else◌, Bool-cases,
  if-cases,
}
use yayatht.Base.{
  length, take, drop, All, length-append, length-drop, append_assoc, append_nil, drop-append_less,
  take-drop,
}
use yayatht.Reactor.Pending.{
  PendingSocketQueue, new, remaining, push, consume_front, consume_from, consume,
}

-- The bytes that wait, in order.
abbrev pub contents_of : List (List ℕ) → List ℕ
contents_of [] = []
contents_of (chunk ∷ chunks) = chunk ++ contents_of chunks

abbrev pub contents : PendingSocketQueue → List ℕ
contents q = contents_of q.chunks

-- `bytes` counts the waiting bytes, within the limit, and no chunk is empty.
pub record Inv (q : PendingSocketQueue) : Type 0 where
  pub counted : q.bytes ≡ length (contents q)
  pub bounded : q.bytes ≤ q.limit
  pub filled : All (λ chunk. 1 ≤ length chunk) q.chunks

contents-append :
    (chunks : List (List ℕ)) (bytes : List ℕ)
    → contents_of (chunks ++ bytes ∷ []) ≡ contents_of chunks ++ bytes
contents-append [] bytes = append_nil bytes
contents-append (chunk ∷ chunks) bytes =
    rw (contents-append chunks bytes) (sym (append_assoc chunk (contents_of chunks) bytes))

filled-append :
    (chunks : List (List ℕ)) (bytes : List ℕ)
    → 1 ≤ length bytes
    → All (λ chunk. 1 ≤ length chunk) chunks
    → All (λ chunk. 1 ≤ length chunk) (chunks ++ bytes ∷ [])
filled-append [] bytes h a = (h, tt)
filled-append (chunk ∷ chunks) bytes h a = (a.0, filled-append chunks bytes h a.1)

length_zero : (xs : List ℕ) → length xs ≡ 0 → xs ≡ []
length_zero [] h = refl
length_zero (x ∷ xs) h = absurd (omega arith)

pub record Pushed (q : PendingSocketQueue) (bytes : List ℕ) (r : PendingSocketQueue) : Type 0 where
  pub appended : contents r ≡ contents q ++ bytes
  pub same_limit : r.limit ≡ q.limit
  pub after_Inv : Inv r

-- A queue in order takes exactly the bytes that fit its limit, and appends them.
pub push_lem :
    (q : PendingSocketQueue) (bytes : List ℕ)
    → Inv q
    → (length (contents q) + length bytes ≤ q.limit
        → (r : PendingSocketQueue) × (push q bytes ≡ some r) × Pushed q bytes r)
      × (q.limit < length (contents q) + length bytes → push q bytes ≡ none)
unfolding push
push_lem q bytes v = (
  λ fits.
      if-cases (λ o. (r : PendingSocketQueue) × (o ≡ some r) × Pushed q bytes r)
        (ltb (remaining q) (length bytes)) (λ t. absurd (ground (arith, v.counted)))
        (λ t.
          if-cases (λ o. (r : PendingSocketQueue) × (o ≡ some r) × Pushed q bytes r)
            (length bytes == 0)
            (λ u. (
              q,
              refl,
              record {
                appended = sym (
                    ap (λ xs. contents q ++ xs) (length_zero bytes (ground arith))
                    ∙ append_nil (contents q));
                same_limit = refl;
                after_Inv = v;
              },
            ))
            (λ u.
              let more = contents-append q.chunks bytes in
              (
                record q { chunks = q.chunks ++ bytes ∷ []; bytes = q.bytes + length bytes },
                refl,
                record {
                  appended = more;
                  same_limit = refl;
                  after_Inv = record {
                    counted = rw more (omega (arith, v.counted, length-append (contents q) bytes));
                    bounded = omega (arith, v.counted);
                    filled = filled-append q.chunks bytes (ground arith) v.filled;
                  };
                },
              ))),
  λ over. ground (arith, v.counted, v.bounded),
)

-- The queue without the bytes that were taken.
pub record Consumed (q : PendingSocketQueue) (len : ℕ) (returned : Option (ℕ × PendingSocketQueue))
    : Type 0 where
  pub taken : ℕ
  pub after : PendingSocketQueue
  pub returns : returned ≡ some (taken, after)
  pub within : taken ≤ len
  pub progress : 1 ≤ len → 1 ≤ length (contents q) → 1 ≤ taken
  pub dropped : contents after ≡ drop taken (contents q)
  pub held : taken ≤ length (contents q)
  pub same_limit : after.limit ≡ q.limit
  pub after_Inv : Inv after

consume_from-Consumed :
    (q : PendingSocketQueue) (chunks : List (List ℕ)) (len : ℕ)
    → q.chunks ≡ chunks
    → Inv q
    → Consumed q len (consume_from q chunks len)
unfolding consume_from consume_front
consume_from-Consumed q [] len e v = record {
  taken = 0;
  after = q;
  returns = refl;
  within = omega arith;
  progress = λ a b. absurd (ground (arith, e));
  dropped = refl;
  held = omega arith;
  same_limit = refl;
  after_Inv = v;
}
consume_from-Consumed q (chunk ∷ chunks) len e v =
    let k = min len (length chunk) in
    let all : contents q ≡ chunk ++ contents_of chunks = ap contents_of e in
    let filled : All (λ c. 1 ≤ length c) (chunk ∷ chunks) =
      subst (All (λ c. 1 ≤ length c)) e v.filled in
    let size : q.bytes ≡ length chunk + length (contents_of chunks) =
      v.counted ∙ ap length all ∙ length-append chunk (contents_of chunks) in
    let left = drop k chunk in
    let rest : List (List ℕ) = if length left == 0 then chunks else left ∷ chunks in
    let g : PendingSocketQueue = record q { chunks = rest; bytes = q.bytes - k } in
    let same : contents_of rest ≡ left ++ contents_of chunks =
      if-cases (λ cs. contents_of cs ≡ left ++ contents_of chunks) (length left == 0)
        (λ t. ap (λ xs. xs ++ contents_of chunks) (sym (length_zero left (ground arith))))
        (λ t. refl) in
    let taken_off : contents_of rest ≡ drop k (contents q) =
      same
      ∙ sym (drop-append_less k chunk (contents_of chunks) (omega arith))
      ∙ ap (drop k) (sym all) in
    let total : length (contents q) ≡ q.bytes = sym v.counted in
    record {
      taken = k;
      after = g;
      returns = ground (arith, size);
      within = omega arith;
      progress = λ a b. omega (arith, a, filled.0);
      dropped = taken_off;
      held = omega (arith, total, size);
      same_limit = refl;
      after_Inv = record {
        counted = rw taken_off (omega (arith, length-drop k (contents q), total));
        bounded = omega (arith, v.bounded);
        filled =
            if-cases (All (λ c. 1 ≤ length c)) (length left == 0) (λ t. filled.1)
              (λ t. (ground arith, filled.1));
      };
    }

-- On a queue in order `consume` returns, takes up to so many bytes off the front, at least one if one
-- is asked for and waits, and leaves the others in order.
pub consume-Consumed : (q : PendingSocketQueue) (len : ℕ) → Inv q → Consumed q len (consume q len)
unfolding consume
consume-Consumed q len v = consume_from-Consumed q q.chunks len refl v

-- A history of a queue with the bytes that went in and those that came out.
pub data Run (limit : ℕ) : PendingSocketQueue → List ℕ → List ℕ → Type 0 where
  starts : Run limit (new limit) [] []
  pushes :
      {q r : PendingSocketQueue} {before after : List ℕ} (bytes : List ℕ)
      → Run limit q before after
      → push q bytes ≡ some r
      → Run limit r (before ++ bytes) after
  refuses :
      {q : PendingSocketQueue} {before after : List ℕ} (bytes : List ℕ)
      → Run limit q before after
      → push q bytes ≡ none
      → Run limit q before after
  consumes :
      {q r : PendingSocketQueue} {before after : List ℕ} (len taken : ℕ)
      → Run limit q before after
      → consume q len ≡ some (taken, r)
      → Run limit r before (after ++ take taken (contents q))

push-some :
    (q r : PendingSocketQueue) (bytes : List ℕ) → Inv q → push q bytes ≡ some r → Pushed q bytes r
push-some q r bytes v e = elim (Bool-cases (leb (length (contents q) + length bytes) q.limit)) [
  | inl fits ↦
      let (r', made, p) = (push_lem q bytes v).0 (ground arith) in
      subst (Pushed q bytes) (ground (arith, made, e)) p
  | inr over ↦ absurd (ground (arith, (push_lem q bytes v).1))
]

-- At the end of any history of pushes, refused or not, and of consumptions, what came out followed by
-- what waits is what went in, no more waits than the limit, and the queue is in order.
pub Run-stream :
    (limit : ℕ) {q : PendingSocketQueue} {before after : List ℕ}
    → Run limit q before after
    → (after ++ contents q ≡ before) × (length (contents q) ≤ limit) × (q.limit ≡ limit) × Inv q
Run-stream limit starts =
    (refl, omega arith, refl, record { counted = refl; bounded = omega arith; filled = tt })
Run-stream limit (pushes {q} {r} {before} {after} bytes h e) =
    let (stream, bound, same, v) = Run-stream limit h in
    let p = push-some q r bytes v e in
    (
      ap (λ xs. after ++ xs) p.appended
          ∙ sym (append_assoc after (contents q) bytes)
          ∙ ap (λ xs. xs ++ bytes) stream,
      omega (arith, p.after_Inv.counted, p.after_Inv.bounded, p.same_limit, same),
      p.same_limit ∙ same,
      p.after_Inv,
    )
Run-stream limit (refuses bytes h e) = Run-stream limit h
Run-stream limit (consumes {q} {r} {before} {after} len taken h e) =
    let (stream, bound, same, v) = Run-stream limit h in
    let c = consume-Consumed q len v in
    let k : c.taken ≡ taken = ground (arith, c.returns, e) in
    let g : c.after ≡ r = ground (arith, c.returns, e) in
    let d : contents r ≡ drop taken (contents q) = rw (← g, ← k) c.dropped in
    (
      ap (λ xs. (after ++ take taken (contents q)) ++ xs) d
          ∙ append_assoc after (take taken (contents q)) (drop taken (contents q))
          ∙ ap (λ xs. after ++ xs) (take-drop taken (contents q))
          ∙ stream,
      omega (arith, ap length d, length-drop taken (contents q), bound),
      ap (λ x. x.limit) (sym g) ∙ c.same_limit ∙ same,
      subst Inv g c.after_Inv,
    )
