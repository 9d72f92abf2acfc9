-- ===== src/Dns/Engine/Answers.antt =====
-- What `accept_response` does: a query is answered to its client, once.
use yayatht.Base.{ℕ, ◌/◌, ◌%◌, ◌≤◌, ◌<◌, min, bit_and}
use yayatht.Base.{◌≡◌, refl, ap, ◌≢◌, Bool, true, false}
use yayatht.Base.{Option, none, some, List, [], ◌∷◌, arith, ltb, ◌==◌, if-cases}
use yayatht.Base.{length, take, drop, splice-nil, word16}
use yayatht.Base.{
  remove, lookup-remove_self, lookup-remove_ne, length-remove-le, remove-Distinct, ℕ_discrete,
}
use yayatht.Base.{bytes16}
use yayatht.Dns.Message.{question_section, question_matches}
use yayatht.Dns.Engine.{
  Transaction, Reply, Engine, find, reply_payload, reply_to, accept_answer, accept_response,
}
use yayatht.Dns.Engine.Ids.{Inv}

-- The transaction of the response's id is answered and gone, and nothing else changed.
pub record Answered (e g : Engine) (message : List ℕ) (frame_limit : ℕ) (r : Reply) : Type 0 where
  pub was : find e (word16 message 0) ≡ some r.transaction
  pub gone : find g (word16 message 0) ≡ none
  pub others : (other : ℕ) → other ≢ word16 message 0 → find g other ≡ find e other
  pub original : take 2 r.payload ≡ bytes16 r.transaction.original_id
  pub whole :
      r.truncated ≡ false
      → (drop 2 r.payload ≡ drop 2 message)
        × (length message ≤ min r.transaction.payload_limit frame_limit)
  pub cut : r.truncated ≡ true → min r.transaction.payload_limit frame_limit < length message
  pub question : List ℕ
  pub asked : question_section message ≡ some question
  pub matched : question_matches r.transaction.question question ≡ true
  pub cut_payload : r.truncated ≡ true → drop 12 r.payload ≡ question
  pub after_Inv : Inv g

unfoldable pub Outcome : Engine → List ℕ → ℕ → Option Reply × Engine → Type 0
Outcome e message frame_limit (none, g) = g ≡ e
Outcome e message frame_limit (some r, g) = Answered e g message frame_limit r

payload_id :
    (t : Transaction) (message question : List ℕ) (truncated : Bool)
    → 2 ≤ length message
    → (take 2 (reply_payload t message question truncated) ≡ bytes16 t.original_id)
      × (truncated ≡ false → drop 2 (reply_payload t message question truncated) ≡ drop 2 message)
      × (truncated ≡ true → drop 12 (reply_payload t message question truncated) ≡ question)
unfolding reply_payload
payload_id t [] question truncated h = absurd (omega arith)
payload_id t (a ∷ []) question truncated h = absurd (omega arith)
payload_id t (a ∷ b ∷ message) question true h = (refl, λ e. absurd cc, λ e. refl)
payload_id t (a ∷ b ∷ message) question false h = (
  ap (λ xs. take 2 ((t.original_id / 256 % 256) ∷ (t.original_id % 256) ∷ xs))
      (splice-nil message 0),
  λ e. splice-nil message 0,
  λ e. absurd cc,
)

remove-Inv :
    (e : Engine) (id : ℕ)
    → Inv e
    → Inv (record e { transactions = remove ℕ_discrete id e.transactions })
remove-Inv e id v = record {
  distinct = remove-Distinct ℕ_discrete id e.transactions v.distinct;
  bounded = omega (arith, v.bounded, length-remove-le ℕ_discrete id e.transactions);
  counter = v.counter;
}

reply_to-Outcome :
    (e : Engine) (message question : List ℕ) (frame_limit : ℕ) (o : Option Transaction)
    → Inv e
    → 12 ≤ length message
    → question_section message ≡ some question
    → find e (word16 message 0) ≡ o
    → Outcome e message frame_limit (reply_to e (word16 message 0) message question frame_limit o)
unfolding reply_to Outcome
reply_to-Outcome e message question frame_limit none v h s f = refl
reply_to-Outcome e message question frame_limit (some t) v h s f =
    let id = word16 message 0 in
    let truncated = ltb (min t.payload_limit frame_limit) (length message) in
    let p = payload_id t message question truncated (omega arith) in
    if-cases (Outcome e message frame_limit) (question_matches t.question question)
      (λ m. record {
        was = f;
        gone = lookup-remove_self ℕ_discrete id e.transactions;
        others = λ other ne. lookup-remove_ne ℕ_discrete id other e.transactions ne;
        original = p.0;
        whole = λ c. (p.1 c, ground arith);
        cut = λ c. ground arith;
        question = question;
        asked = s;
        matched = m;
        cut_payload = p.2;
        after_Inv = remove-Inv e id v;
      })
      (λ m. refl)

accept_answer-Outcome :
    (e : Engine) (message : List ℕ) (frame_limit : ℕ) (q : Option (List ℕ))
    → Inv e
    → 12 ≤ length message
    → question_section message ≡ q
    → Outcome e message frame_limit (accept_answer e message frame_limit q)
unfolding accept_answer Outcome
accept_answer-Outcome e message frame_limit none v h s = refl
accept_answer-Outcome e message frame_limit (some q) v h s =
    reply_to-Outcome e message q frame_limit (find e (word16 message 0)) v h s refl

-- On an engine within its limits `accept_response` either changes nothing and gives no reply, or it
-- gives the reply of the transaction that stood under the response's id and asked the same question,
-- and takes exactly that transaction out. The reply carries the client's id; it is the whole response
-- exactly when that fits the client and the frame, and else its question behind a header.
pub accept_response-Outcome :
    (e : Engine) (message : List ℕ) (frame_limit : ℕ)
    → Inv e
    → Outcome e message frame_limit (accept_response e message frame_limit)
unfolding accept_response Outcome
accept_response-Outcome e message frame_limit v =
    let P = Outcome e message frame_limit in
    if-cases P (ltb (length message) 12) (λ t. refl)
      (λ t.
        if-cases P (bit_and (word16 message 2) 0x8000 == 0) (λ t. refl)
          (λ u.
            accept_answer-Outcome e message frame_limit (question_section message) v (ground arith)
              refl))
