-- ===== src/Dns/Engine.antt =====
-- `Engine` of crates/dataplane/src/dns.rs: the queries that wait for an answer.
pub mod Ids
pub mod Queries
pub mod Answers
pub mod Expiry
use yayatht.Base.{ℕ, zero, suc, ◌+◌, ◌-◌, ◌*◌, ◌/◌, ◌%◌, ◌^◌, ◌≤◌, ◌<◌, min, max, bit_and, bit_or}
use yayatht.Base.{
  ◌≡◌, refl, sym, ap, subst, ◌∙◌, ◌≢◌, ◌↔◌, ◌⊎◌, inl, inr, Bool, true, false, not, ◌&&◌, ◌||◌,
}
use yayatht.Base.{
  Option, none, some, List, [], ◌∷◌, ◌++◌, map, arith, ltb, leb, ◌==◌, if◌then◌else◌, ==_iff,
  Bool-cases, Option-cases, is_some, if-cases,
}
use yayatht.Base.{
  length, get_elem?, get_or, set, take, drop, replicate, slice, splice, All, length-append,
  length-set, get_elem?-set_self, get_elem?-set_ne, get_elem?-lt, length-take, length-drop,
  length-replicate, length-splice, splice-nil, splice-splice, splice-zero, take-append, drop-append,
  take_all, drop-drop, splice_over, take-append_more, append_assoc, set-splice, drop-after,
  word16-after, byte_at, word16,
}
use yayatht.Base.{
  lookup, remove, insert, lookup-remove_self, lookup-remove_ne, lookup-insert_self,
  lookup-insert_ne, length-remove-le, length-remove-lt, remove_absent, ℕ_discrete, ◌>>=◌,
  >>=-eq-some,
}
use yayatht.Base.{
  u8_max, u16_max, u32_max, u64_max, IsU8, IsU16, IsU32, u8, u16, u32, u64, add32, sub32, ◌<<<◌,
  ◌>>>◌, be16, bytes16, be32, bytes32, be16-bytes16, be32-bytes32,
}
use yayatht.Base.{
  zero-bit_or, bit_or-zero, bit_and-zero, bit_or_cut, bit_and_cut, bit_or_fields, bit_and_mask,
  bit_or_insert, bit_and_field,
}
use yayatht.Net.{SocketAddr}
use yayatht.Dns.Message.{
  header_len, flag_response, flag_truncated, rcode_formerr, rcode_servfail, synthesize_failure,
  question_section, question_matches, edns_payload_limit,
}

abbrev pub max_transactions : ℕ
max_transactions = 512

abbrev max_question_bytes : ℕ
max_question_bytes = 512

-- Times are nanoseconds since the program's start.
abbrev pub query_timeout_default : ℕ
query_timeout_default = 5_000_000_000

pub record Transaction : Type 0 where
  pub client : SocketAddr
  pub gateway : SocketAddr
  pub original_id : ℕ
  pub query_flags : ℕ
  pub question : List ℕ
  pub payload_limit : ℕ
  pub deadline : ℕ

pub data QueryDisposition : Type 0 where
  forward : ℕ → QueryDisposition
  respond : List ℕ → QueryDisposition
  drops : QueryDisposition

pub record Reply : Type 0 where
  pub transaction : Transaction
  pub payload : List ℕ
  pub truncated : Bool

-- The hash map's order of iteration is that of the list; no result depends on it.
pub record Engine : Type 0 where
  pub transactions : List (ℕ × Transaction)
  pub next_id : ℕ
  pub query_timeout : ℕ

unfoldable pub with_query_timeout : ℕ → Engine
with_query_timeout query_timeout = record {
  transactions = [];
  next_id = 0;
  query_timeout = query_timeout;
}

abbrev pub find : Engine → ℕ → Option Transaction
find e id = lookup ℕ_discrete id e.transactions

-- The loop of `allocate_id` with the rounds left: the id, and the `next_id` that it leaves.
unfoldable pub allocate_from : ℕ → List (ℕ × Transaction) → ℕ → Option (ℕ × ℕ)
allocate_from zero transactions id = none
allocate_from (suc rounds) transactions id =
    let rest = allocate_from rounds transactions (u16 (id + 1)) in
    if is_some (lookup ℕ_discrete id transactions) then rest else some (id, u16 (id + 1))

unfoldable pub allocate_id : Engine → Option (ℕ × ℕ)
unfolding allocate_from
allocate_id e = allocate_from (2 ^ 16) e.transactions e.next_id

-- The end of `accept_query`; `none` would be a loop in `allocate_id` that never ends.
unfoldable pub register : Engine → Transaction → Option (ℕ × ℕ) → Option (QueryDisposition × Engine)
register e transaction none = none
register e transaction (some (id, next_id)) = some (
  forward id,
  record e { transactions = insert ℕ_discrete id transaction e.transactions; next_id = next_id },
)

unfoldable pub accept_question :
    Engine
    → SocketAddr
    → SocketAddr
    → List ℕ
    → Bool
    → ℕ
    → Option (List ℕ)
    → Option (QueryDisposition × Engine)
unfolding register allocate_id
accept_question e client gateway message resolver_available now none =
    some (respond (synthesize_failure (word16 message 0) (word16 message 2) [] rcode_formerr), e)
accept_question e client gateway message resolver_available now (some question) =
    let id = word16 message 0 in
    let flags = word16 message 2 in
    if ltb max_question_bytes (length question)
    then some (respond (synthesize_failure id flags [] rcode_formerr), e)
    else if not resolver_available || leb max_transactions (length e.transactions)
    then some (respond (synthesize_failure id flags question rcode_servfail), e)
    else register e
        (record {
          client = client;
          gateway = gateway;
          original_id = id;
          query_flags = flags;
          question = question;
          payload_limit = edns_payload_limit message (header_len + length question);
          deadline = now + e.query_timeout;
        })
        (allocate_id e)

unfoldable pub accept_query :
    Engine → SocketAddr → SocketAddr → List ℕ → Bool → ℕ → Option (QueryDisposition × Engine)
unfolding accept_question
accept_query e client gateway message resolver_available now =
    if ltb (length message) header_len
    then some (drops, e)
    else if not (bit_and (word16 message 2) flag_response == 0)
    then some (drops, e)
    else accept_question e client gateway message resolver_available now (question_section message)

-- The message for the client: the whole response under the client's id, or, where that is too long,
-- its header and question with the truncation flag.
unfoldable pub reply_payload : Transaction → List ℕ → List ℕ → Bool → List ℕ
reply_payload t message question true =
    bytes16 t.original_id
    ++ (bytes16 (bit_or (word16 message 2) flag_truncated)
        ++ (bytes16 1 ++ (replicate 6 0 ++ question)))
reply_payload t message question false = splice message 0 (bytes16 t.original_id)

unfoldable pub reply_to :
    Engine → ℕ → List ℕ → List ℕ → ℕ → Option Transaction → Option Reply × Engine
unfolding reply_payload
reply_to e id message question frame_limit none = (none, e)
reply_to e id message question frame_limit (some t) =
    let truncated = ltb (min t.payload_limit frame_limit) (length message) in
    if question_matches t.question question
    then (
      some (record {
        transaction = t;
        payload = reply_payload t message question truncated;
        truncated = truncated;
      }),
      record e { transactions = remove ℕ_discrete id e.transactions },
    )
    else (none, e)

unfoldable pub accept_answer : Engine → List ℕ → ℕ → Option (List ℕ) → Option Reply × Engine
unfolding reply_to
accept_answer e message frame_limit none = (none, e)
accept_answer e message frame_limit (some question) =
    reply_to e (word16 message 0) message question frame_limit (find e (word16 message 0))

unfoldable pub accept_response : Engine → List ℕ → ℕ → Option Reply × Engine
unfolding accept_answer
accept_response e message frame_limit =
    if ltb (length message) header_len
    then (none, e)
    else if bit_and (word16 message 2) flag_response == 0
    then (none, e)
    else accept_answer e message frame_limit (question_section message)

-- The failure that a transaction is owed.
unfoldable pub owed : Transaction → Transaction × List ℕ
unfolding synthesize_failure
owed t = (t, synthesize_failure t.original_id t.query_flags t.question rcode_servfail)

unfoldable pub expired_ids : ℕ → List (ℕ × Transaction) → List ℕ
expired_ids now [] = []
expired_ids now ((id, t) ∷ rest) =
    let others = expired_ids now rest in if leb t.deadline now then id ∷ others else others

-- `remove(&id).expect(…)` for each id that was collected; `none` is the failed `expect`.
unfoldable pub expire_ids :
    List ℕ → List (ℕ × Transaction) → Option (List (Transaction × List ℕ) × List (ℕ × Transaction))
unfolding owed
expire_ids [] transactions = some ([], transactions)
expire_ids (id ∷ ids) transactions = do
  t ← lookup ℕ_discrete id transactions
  (replies, left) ← expire_ids ids (remove ℕ_discrete id transactions)
  some (owed t ∷ replies, left)

unfoldable pub expire : Engine → ℕ → Option (List (Transaction × List ℕ) × Engine)
unfolding expire_ids expired_ids
expire e now = do
  (replies, left) ← expire_ids (expired_ids now e.transactions) e.transactions
  some (replies, record e { transactions = left })

unfoldable pub abort_found :
    Engine → ℕ → Option Transaction → Option (Transaction × List ℕ) × Engine
unfolding owed
abort_found e id none = (none, e)
abort_found e id (some t) =
    (some (owed t), record e { transactions = remove ℕ_discrete id e.transactions })

unfoldable pub abort : Engine → ℕ → Option (Transaction × List ℕ) × Engine
unfolding abort_found
abort e id = abort_found e id (find e id)

unfoldable pub fail_all : Engine → List (Transaction × List ℕ) × Engine
unfolding owed
fail_all e = (map (λ entry. owed entry.1) e.transactions, record e { transactions = [] })

unfoldable pub is_idle : Engine → Bool
is_idle e = length e.transactions == 0

unfoldable pub outstanding : Engine → ℕ
outstanding e = length e.transactions

abbrev min_option : ℕ → Option ℕ → ℕ
min_option a none = a
min_option a (some b) = min a b

unfoldable pub earliest : List (ℕ × Transaction) → Option ℕ
earliest [] = none
earliest ((id, t) ∷ rest) = some (min_option t.deadline (earliest rest))

unfoldable pub next_deadline : Engine → Option ℕ
unfolding earliest
next_deadline e = earliest e.transactions
