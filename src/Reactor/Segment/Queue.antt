-- ===== src/Reactor/Segment/Queue.antt =====
-- A cumulative acknowledgment of the queue of sent segments.
use yayatht.Base.{ℕ, ◌+◌, ◌-◌, ◌^◌, ◌≤◌, ◌<◌}
use yayatht.Base.{◌≡◌, refl, sym, ap, subst, ◌∙◌, inl, inr, true, false}
use yayatht.Base.{List, [], ◌∷◌, arith, leb, Bool-cases}
use yayatht.Base.{length}
use yayatht.Base.{ℕ_discrete}
use yayatht.Base.{IsU32, add32}
use yayatht.Tcp.Sequence.{before, after, distance}
use yayatht.Reactor.Segment.{
  SentSegment, sequence_len, end_sequence, trim, acknowledge, pop_acknowledged,
  acknowledge_segments,
}

-- The sequence numbers that the segments hold.
abbrev pub span : List SentSegment → ℕ
span [] = 0
span (s ∷ segments) = sequence_len s + span segments

-- The segments follow each other from a sequence number on, and none is empty.
abbrev pub IsChain : ℕ → List SentSegment → Type 0
IsChain start [] = Unit
IsChain start (s ∷ segments) =
    (s.sequence ≡ start)
    × (s.payload_len < 2 ^ 32)
    × (1 ≤ sequence_len s)
    × IsChain (end_sequence s) segments

one-acknowledge :
    (s : SentSegment) (k : ℕ)
    → IsU32 s.sequence
    → s.payload_len < 2 ^ 32
    → sequence_len s < 2 ^ 31
    → (k ≡ 0 → acknowledge s (add32 s.sequence k) ≡ (false, s))
      × (k < 2 ^ 31
          → 1 ≤ sequence_len s
          → sequence_len s ≤ k
          → acknowledge s (add32 s.sequence k) ≡ (true, s))
      × (1 ≤ k
          → k < sequence_len s
          → acknowledge s (add32 s.sequence k) ≡ (false, trim s (add32 s.sequence k) k))
unfolding acknowledge before after distance
one-acknowledge s k u p n = (λ z. ground arith, λ a b c. ground arith, λ a b. ground arith)

trim-lem :
    (s : SentSegment) (k : ℕ)
    → s.payload_len < 2 ^ 32
    → 1 ≤ k
    → k < sequence_len s
    → (sequence_len (trim s (add32 s.sequence k) k) + k ≡ sequence_len s)
      × ((trim s (add32 s.sequence k) k).payload_len < 2 ^ 32)
      × ((trim s (add32 s.sequence k) k).syn ≡ false)
      × ((trim s (add32 s.sequence k) k).fin ≡ s.fin)
      × ((trim s (add32 s.sequence k) k).sequence ≡ add32 s.sequence k)
      × (end_sequence (trim s (add32 s.sequence k) k) ≡ end_sequence s)
unfolding trim
trim-lem s k p one less =
    let left : sequence_len (trim s (add32 s.sequence k) k) + k ≡ sequence_len s = ground arith in
    (left, ground arith, ground arith, ground arith, refl, omega (arith, left))

-- The queue once `k` sequence numbers from its start are acknowledged.
pub record Acknowledged (start k : ℕ) (segments after : List SentSegment) : Type 0 where
  pub chain : IsChain (add32 start k) after
  pub left : span after + k ≡ span segments
  pub shorter : length after ≤ length segments

pop-whole :
    (start k : ℕ) (s : SentSegment) (segments after : List SentSegment)
    → sequence_len s ≤ k
    → add32 (end_sequence s) (k - sequence_len s) ≡ add32 start k
    → Acknowledged (end_sequence s) (k - sequence_len s) segments after
    → Acknowledged start k (s ∷ segments) after
pop-whole start k s segments after le same a = record {
  chain = subst (λ q. IsChain q after) same a.chain;
  left = omega (arith, a.left, le);
  shorter = omega (arith, a.shorter);
}

-- A queue of segments that follow each other, within 2 ^ 31 sequence numbers: an acknowledgment of the
-- first `k` of them leaves segments that follow each other from exactly the acknowledged number on and
-- hold all the others, wherever the numbers wrap; a segment that it splits keeps its end.
pub acknowledge_segments-Acknowledged :
    (segments : List SentSegment) (start k : ℕ)
    → IsU32 start
    → IsChain start segments
    → span segments < 2 ^ 31
    → k ≤ span segments
    → Acknowledged start k segments (acknowledge_segments segments (add32 start k))
unfolding acknowledge_segments pop_acknowledged
acknowledge_segments-Acknowledged [] start k u c n le = record {
  chain = tt;
  left = omega arith;
  shorter = omega arith;
}
acknowledge_segments-Acknowledged (s ∷ segments) start k u (at, p, some_len, rest) n le =
    let su : IsU32 s.sequence = subst IsU32 (sym at) u in
    let one = one-acknowledge s k su p (omega (arith, n)) in
    let here : add32 s.sequence k ≡ add32 start k = ap (λ q. add32 q k) at in
    elim (Bool-cases (leb (sequence_len s) k)) [
      | inl whole ↦
          let fits : sequence_len s ≤ k = ground arith in
          let e : acknowledge s (add32 start k) ≡ (true, s) =
            sym (ap (acknowledge s) here) ∙ one.1 (omega (arith, le, n)) some_len fits in
          let same : add32 (end_sequence s) (k - sequence_len s) ≡ add32 start k =
            omega (arith, here, fits) in
          let inner =
            acknowledge_segments-Acknowledged segments (end_sequence s) (k - sequence_len s)
              (omega arith) rest (omega (arith, n)) (omega (arith, le)) in
          rw e (
            pop-whole start k s segments (acknowledge_segments segments (add32 start k)) fits same (
              subst
                (λ q.
                  Acknowledged (end_sequence s) (k - sequence_len s) segments
                    (acknowledge_segments segments q))
                same inner))
      | inr part ↦
          let inside : k < sequence_len s = ground arith in
          elim (ℕ_discrete k 0) [
            | yes z ↦
                let e : acknowledge s (add32 start k) ≡ (false, s) =
                  sym (ap (acknowledge s) here) ∙ one.0 z in
                let still : add32 start k ≡ start = omega (arith, z, u) in
                rw e (record {
                  chain = subst (λ q. IsChain q (s ∷ segments)) (sym still) (at, p, some_len, rest);
                  left = omega (arith, z);
                  shorter = omega arith;
                })
            | no some_k ↦
                let e : acknowledge s (add32 start k) ≡ (false, trim s (add32 s.sequence k) k) =
                  sym (ap (acknowledge s) here) ∙ one.2 (omega (arith, some_k)) inside in
                let t = trim-lem s k p (omega (arith, some_k)) inside in
                let ends : end_sequence (trim s (add32 s.sequence k) k) ≡ end_sequence s = t.5 in
                rw e (record {
                  chain = (
                    t.4 ∙ here,
                    t.1,
                    omega (arith, t.0, inside),
                    subst (λ q. IsChain q segments) (sym ends) rest,
                  );
                  left = omega (arith, t.0);
                  shorter = omega arith;
                })
          ]
    ]
