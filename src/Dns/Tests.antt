-- ===== src/Dns/Tests.antt =====
-- An engine with one query outstanding, and the answer to it.
use yayatht.Base.{ℕ, ◌+◌}
use yayatht.Base.{◌≡◌, ◌↔◌, refl, true}
use yayatht.Base.{none, some, List, [], ◌∷◌, ◌++◌, arith, if◌then◌else◌}
use yayatht.Base.{lookup}
use yayatht.Base.{IsU16, u16}
use yayatht.Base.{◌+◌}
use yayatht.Dns.Message.Grammar.{Asks, question_section_iff}
use yayatht.Net.{SocketAddr, v4}
use yayatht.Dns.Message.{skip_label, skip_from, skip_name, question_to, question_section}
use yayatht.Dns.Engine.{
  Transaction, Engine, find, owed, allocate_id, accept_query, accept_response, expire,
}
use yayatht.Dns.Engine.Ids.{Inv, allocate_id_lem}
use yayatht.Dns.Engine.Queries.{Accepted, accept_query-Accepted}
use yayatht.Dns.Engine.Answers.{Outcome, accept_response-Outcome}
use yayatht.Dns.Engine.Expiry.{is_due, expire_lem}

abbrev client : SocketAddr
client = v4 (192 ∷ 0 ∷ 2 ∷ 2 ∷ []) 40000

abbrev gateway : SocketAddr
gateway = v4 (192 ∷ 0 ∷ 2 ∷ 1 ∷ []) 53

-- A question for the name of one label, type A, class IN.
abbrev question : List ℕ
question = 1 ∷ 97 ∷ 0 ∷ 0 ∷ 1 ∷ 0 ∷ 1 ∷ []

abbrev counts : List ℕ
counts = 0 ∷ 1 ∷ 0 ∷ 0 ∷ 0 ∷ 0 ∷ 0 ∷ 0 ∷ []

abbrev query : List ℕ
query = (0x12 ∷ 0x34 ∷ 1 ∷ 0 ∷ counts) ++ question

abbrev response : List ℕ
response = (0 ∷ 7 ∷ 0x81 ∷ 0x80 ∷ counts) ++ question

abbrev asked : Transaction
asked = record {
  client = client;
  gateway = gateway;
  original_id = 0x1234;
  query_flags = 0x0100;
  question = question;
  payload_limit = 512;
  deadline = 100;
}

abbrev waiting : Engine
waiting = record { transactions = (7, asked) ∷ []; next_id = 7; query_timeout = 100 }

waiting-Inv : Inv waiting
unfolding lookup
waiting-Inv = record { distinct = (refl, tt); bounded = omega arith; counter = omega arith }

question_read : question_section response ≡ some question
unfolding question_section skip_name skip_from skip_label question_to
question_read = ground arith

allocate_id_lem_example :
    (id next : ℕ) × (allocate_id waiting ≡ some (id, next))
    × (find waiting id ≡ none)
    × IsU16 id
    × (next ≡ u16 (id + 1))
allocate_id_lem_example = allocate_id_lem waiting (omega arith) (omega arith)

accept_query-Accepted_example :
    Accepted waiting query client 50 (accept_query waiting client gateway query true 50)
accept_query-Accepted_example =
    accept_query-Accepted waiting client gateway query true 50 waiting-Inv

accept_response-Outcome_example :
    Outcome waiting response 1500 (accept_response waiting response 1500)
accept_response-Outcome_example = accept_response-Outcome waiting response 1500 waiting-Inv

expire_lem_example :
    (g : Engine) × (expire waiting 100 ≡ some (owed asked ∷ [], g))
    × ((id : ℕ) → find g id ≡ (if is_due 100 (find waiting id) then none else find waiting id))
    × Inv g
expire_lem_example = expire_lem waiting 100 waiting-Inv

question_section_iff_example : (question_section response ≡ some question) ↔ Asks response question
question_section_iff_example = question_section_iff response question
