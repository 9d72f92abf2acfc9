-- ===== src/Dns/Engine/Queries.antt =====
-- What `accept_query` does on each of its branches.
use yayatht.Base.{ℕ, ◌+◌, ◌<◌, bit_and}
use yayatht.Base.{◌≡◌, refl, ◌≢◌, Bool, not, ◌||◌}
use yayatht.Base.{Option, none, some, List, [], arith, ltb, leb, ◌==◌, if-cases}
use yayatht.Base.{length, take, word16}
use yayatht.Base.{
  insert, lookup-insert_self, lookup-insert_ne, length-remove-le, remove_absent, insert-Distinct,
  ℕ_discrete,
}
use yayatht.Base.{IsU16, bytes16}
use yayatht.Net.{SocketAddr}
use yayatht.Dns.Message.{
  synthesize_failure, question_section, edns_payload_limit, flag_response, header_len,
}
use yayatht.Dns.Engine.{
  max_transactions, Transaction, QueryDisposition, forward, respond, drops, Engine, find,
  allocate_id, register, accept_question, accept_query,
}
use yayatht.Dns.Engine.Ids.{Inv, allocate_id_lem}

-- The query stands in the engine under an id that was free, and nothing else changed.
pub record Forwarded (e g : Engine) (message : List ℕ) (client : SocketAddr) (now id : ℕ)
    : Type 0 where
  pub transaction : Transaction
  pub free : find e id ≡ none
  pub word : IsU16 id
  pub stored : find g id ≡ some transaction
  pub original : transaction.original_id ≡ word16 message 0
  pub asker : transaction.client ≡ client
  pub asked : question_section message ≡ some transaction.question
  pub due : transaction.deadline ≡ now + e.query_timeout
  pub others : (other : ℕ) → other ≢ id → find g other ≡ find e other
  pub after_Inv : Inv g

-- The outcomes of `accept_query`: a forwarded query, an answer under the query's own id, or nothing;
-- in the latter two the engine stays as it was.
unfoldable pub Accepted :
    Engine → List ℕ → SocketAddr → ℕ → Option (QueryDisposition × Engine) → Type 0
Accepted e message client now none = ⊥
Accepted e message client now (some (drops, g)) = g ≡ e
Accepted e message client now (some (respond reply, g)) =
    (g ≡ e) × (take 2 reply ≡ bytes16 (word16 message 0))
Accepted e message client now (some (forward id, g)) = Forwarded e g message client now id

register-Accepted :
    (e : Engine) (t : Transaction) (message : List ℕ) (client : SocketAddr) (now : ℕ)
    → Inv e
    → length e.transactions < max_transactions
    → t.original_id ≡ word16 message 0
    → t.client ≡ client
    → question_section message ≡ some t.question
    → t.deadline ≡ now + e.query_timeout
    → Accepted e message client now (register e t (allocate_id e))
unfolding register Accepted insert
register-Accepted e t message client now v room o c q d =
    let (id, next, found, free, small, after) =
      allocate_id_lem e v.counter (omega (arith, v.bounded)) in
    let gone = remove_absent ℕ_discrete id e.transactions free in
    let accepted : Accepted e message client now (register e t (some (id, next))) = record {
      transaction = t;
      free = free;
      word = small;
      stored = lookup-insert_self ℕ_discrete id t e.transactions;
      original = o;
      asker = c;
      asked = q;
      due = d;
      others = λ other ne. lookup-insert_ne ℕ_discrete id other t e.transactions ne;
      after_Inv = record {
        distinct = insert-Distinct ℕ_discrete id t e.transactions v.distinct;
        bounded = omega (arith, room, length-remove-le ℕ_discrete id e.transactions);
        counter = omega (arith, after);
      };
    } in
    rw found accepted

answer_id :
    (id flags : ℕ) (question : List ℕ) (rcode : ℕ)
    → take 2 (synthesize_failure id flags question rcode) ≡ bytes16 id
unfolding synthesize_failure
answer_id id flags question rcode = refl

accept_question-Accepted :
    (e : Engine) (client gateway : SocketAddr) (message : List ℕ) (available : Bool) (now : ℕ)
    (q : Option (List ℕ))
    → Inv e
    → question_section message ≡ q
    → Accepted e message client now (accept_question e client gateway message available now q)
unfolding accept_question Accepted
accept_question-Accepted e client gateway message available now none v s =
    (refl, answer_id (word16 message 0) (word16 message 2) [] 1)
accept_question-Accepted e client gateway message available now (some q) v s =
    let P = Accepted e message client now in
    if-cases P (ltb 512 (length q))
      (λ t. (refl, answer_id (word16 message 0) (word16 message 2) [] 1))
      (λ t.
        if-cases P (not available || leb 512 (length e.transactions))
          (λ t. (refl, answer_id (word16 message 0) (word16 message 2) q 2))
          (λ t.
            register-Accepted e
              (record {
                client = client;
                gateway = gateway;
                original_id = word16 message 0;
                query_flags = word16 message 2;
                question = q;
                payload_limit = edns_payload_limit message (12 + length q);
                deadline = now + e.query_timeout;
              })
              message client now v (ground arith) refl refl s refl))

-- On an engine within its limits `accept_query` ends: it drops the message and keeps the engine, or it
-- answers under the query's own id and keeps the engine, or it forwards the query under a free 16-bit
-- id, where its transaction now stands with the query's id, client, question and deadline, while every
-- other transaction stays, and the engine is again within its limits.
pub accept_query-Accepted :
    (e : Engine) (client gateway : SocketAddr) (message : List ℕ) (available : Bool) (now : ℕ)
    → Inv e
    → Accepted e message client now (accept_query e client gateway message available now)
unfolding accept_query Accepted
accept_query-Accepted e client gateway message available now v =
    let P = Accepted e message client now in
    if-cases P (ltb (length message) header_len) (λ t. refl)
      (λ t.
        if-cases P (not (bit_and (word16 message 2) flag_response == 0)) (λ t. refl)
          (λ t.
            accept_question-Accepted e client gateway message available now
              (question_section message) v refl))
