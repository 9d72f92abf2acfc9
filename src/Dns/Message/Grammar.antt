-- ===== src/Dns/Message/Grammar.antt =====
-- The question of a DNS message by its grammar, and that `question_section` reads exactly that.
use yayatht.Base.{ℕ, ◌+◌, ◌-◌, ◌≤◌, ◌<◌}
use yayatht.Base.{◌≡◌, refl, sym, ap, subst, ◌∙◌, ◌↔◌, Bool, true, false, not}
use yayatht.Base.{Option, none, some, List, ◌++◌, arith, ltb, ◌==◌, if◌then◌else◌, ==_iff, if-cases}
use yayatht.Base.{
  length, take, drop, slice, length-append, length-take, length-drop, take-append, drop-append,
  take-append_more, word16, take-drop,
}
use yayatht.Dns.Message.Bounds.{question_to-some, unless}
use yayatht.Dns.Message.Names.{IsName, skip_from-Named, skip_from-IsName}
use yayatht.Dns.Message.{header_len, skip_from, skip_name, question_to, question_section}

-- A message that asks one question, with the header before the question and what follows it.
pub record Asks (message question : List ℕ) : Type 0 where
  pub header : List ℕ
  pub name : List ℕ
  pub type_class : List ℕ
  pub rest : List ℕ
  pub message_is : message ≡ header ++ (name ++ (type_class ++ rest))
  pub question_is : question ≡ name ++ type_class
  pub header_size : length header ≡ 12
  pub one_question : word16 message 4 ≡ 1
  pub name_IsName : IsName 128 name
  pub fixed_size : length type_class ≡ 4

unless-false {ℓ} :
    {A : Type ℓ} (b : Bool) (o : Option A) (a : A) → (if b then none else o) ≡ some a → b ≡ false
unless-false true o a h = absurd cc
unless-false false o a h = refl

is_one : (n : ℕ) → not (n == 1) ≡ false → n ≡ 1
is_one n h = ground arith

ltb_lt : (m n : ℕ) → ltb m n ≡ true → m < n
ltb_lt m n h = ground arith

question_to-slice :
    (message question : List ℕ) (name_end : ℕ)
    → name_end + 4 ≤ length message
    → slice message header_len (name_end + 4) ≡ question
    → question_to message (some name_end) ≡ some question
unfolding question_to
question_to-slice message question name_end fits cut =
    if-cases (λ r. r ≡ some question) (ltb (length message) (name_end + 4))
      (λ outside. absurd (omega (arith, fits, ltb_lt (length message) (name_end + 4) outside)))
      (λ inside. ap some cut)

question_section-Asks :
    (message question : List ℕ) → question_section message ≡ some question → Asks message question
unfolding question_section skip_name
question_section-Asks message question h =
    let b = not (word16 message 4 == 1) in
    let end = skip_name message header_len in
    let (name_end, skipped, fits, cut) =
      question_to-some message question end (unless b (question_to message end) question h) in
    let n = skip_from-Named 128 message header_len name_end skipped in
    let sized : length message - header_len ≡ length n.name + length n.rest =
      sym (length-drop header_len message) ∙ ap length n.bytes_are ∙ length-append n.name n.rest in
    record {
      header = take header_len message;
      name = n.name;
      type_class = take 4 n.rest;
      rest = drop 4 n.rest;
      message_is =
          sym (take-drop header_len message)
          ∙ ap (take header_len message ++◌)
              (n.bytes_are ∙ ap (n.name ++◌) (sym (take-drop 4 n.rest)));
      question_is =
          cut
          ∙ ap (take (name_end + 4 - header_len)) n.bytes_are
          ∙ take-append_more (name_end + 4 - header_len) 4 n.name n.rest (omega (arith, n.ends));
      header_size = omega (arith, length-take header_len message, fits, n.ends);
      one_question =
          is_one (word16 message 4) (unless-false b (question_to message end) question h);
      name_IsName = n.well_formed;
      fixed_size = omega (arith, length-take 4 n.rest, sized, fits, n.ends);
    }

Asks-question_section :
    (message question : List ℕ) → Asks message question → question_section message ≡ some question
unfolding question_section
Asks-question_section message question a =
    let behind = a.type_class ++ a.rest in
    let skipped : skip_name message header_len ≡ some (header_len + length a.name) =
      unfold skip_name in
      subst (λ k. skip_from 128 message k ≡ some (k + length a.name)) a.header_size
        (skip_from-IsName 128 a.name a.header behind message a.name_IsName a.message_is) in
    let sized : length message ≡ 16 + length a.name + length a.rest = omega (
      arith,
      ap length a.message_is,
      length-append a.header (a.name ++ behind),
      length-append a.name behind,
      length-append a.type_class a.rest,
      a.header_size,
      a.fixed_size,
    ) in
    let size = header_len + length a.name + 4 - header_len in
    let cut : slice message header_len (header_len + length a.name + 4) ≡ question =
      ap (λ m. take size (drop header_len m)) a.message_is
      ∙ ap (take size) (drop-append header_len a.header (a.name ++ behind) (sym a.header_size))
      ∙ take-append_more size 4 a.name behind (omega arith)
      ∙ ap (a.name ++◌) (take-append 4 a.type_class a.rest (sym a.fixed_size))
      ∙ sym a.question_is in
    let one : (word16 message 4 == 1) ≡ true = (==_iff (word16 message 4) 1).1 a.one_question in
    rw (one, skipped)
      (question_to-slice message question (header_len + length a.name) (omega (arith, sized)) cut)

-- `question_section` reads a question exactly from the messages that ask one by the grammar: behind a
-- header of 12 bytes whose question count is 1 stand a name of fewer than 128 labels, which ends with
-- the root or the two bytes of a compression pointer, and four bytes of type and class. The question
-- is the name with those four bytes.
pub question_section_iff :
    (message question : List ℕ) → (question_section message ≡ some question) ↔ Asks message question
question_section_iff message question =
    (question_section-Asks message question, Asks-question_section message question)
