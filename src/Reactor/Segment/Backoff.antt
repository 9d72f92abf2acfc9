-- ===== src/Reactor/Segment/Backoff.antt =====
-- The backoff of retransmissions and of zero-window probes.
use yayatht.Base.{ℕ, zero, suc, ◌+◌, ◌*◌, ◌^◌, ◌≤◌, min}
use yayatht.Base.{◌≡◌, refl, ap, ◌∙◌, inl, inr}
use yayatht.Base.{List, [], ◌∷◌, arith, leb, Bool-cases}
use yayatht.Base.{length}
use yayatht.Base.{u8_max}
use native.Mathlib.Omega.{pow_step}
use yayatht.Reactor.Segment.{SentSegment, max_timeout, record_timeout_retransmit}

-- The segment after so many timeouts, at the times of a list.
abbrev pub timeouts : SentSegment → List ℕ → SentSegment
timeouts s [] = s
timeouts s (now ∷ times) = timeouts (record_timeout_retransmit s now) times

scaled : (q x : ℕ) → min (suc q * min x max_timeout) max_timeout ≡ min (suc q * x) max_timeout
scaled q x = elim (Bool-cases (leb x max_timeout)) [
  | inl small ↦ ap (λ y. min (suc q * y) max_timeout) (ground arith)
  | inr large ↦
      let cut : min x max_timeout ≡ max_timeout = ground arith in
      rw cut (let more : max_timeout ≤ suc q * x = grind (arith, large) in omega (arith, more))
]

power_positive : (n : ℕ) → (q : ℕ) × (2 ^ n ≡ suc q)
power_positive zero = (0, refl)
power_positive (suc n) =
    let (q, e) = power_positive n in (2 * q + 1, pow_step 2 n ∙ ap (λ p. 2 * p) e ∙ omega arith)

doubled :
    (n t : ℕ) → min (2 ^ n * min (t * 2) max_timeout) max_timeout ≡ min (2 ^ suc n * t) max_timeout
doubled n t =
    let (q, e) = power_positive n in
    let twice : 2 ^ suc n ≡ 2 * suc q = pow_step 2 n ∙ ap (λ p. 2 * p) e in
    ap (λ p. min (p * min (t * 2) max_timeout) max_timeout) e
    ∙ scaled q (t * 2)
    ∙ ap (λ x. min x max_timeout) (rw twice (omega arith))

-- After n timeouts a segment's timeout has doubled n times, up to eight seconds, it counts n more
-- retries, up to 255, and it is given up from the fifth on.
pub timeouts_lem :
    (s : SentSegment) (times : List ℕ)
    → s.retransmit_timeout ≤ max_timeout
    → ((timeouts s times).retransmit_timeout
        ≡ min (2 ^ length times * s.retransmit_timeout) max_timeout)
      × (s.retries ≤ u8_max → (timeouts s times).retries ≡ min (s.retries + length times) u8_max)
timeouts_lem s [] h = (omega arith, λ r. omega arith)
timeouts_lem s (now ∷ times) h =
    let next = timeouts_lem (record_timeout_retransmit s now) times (omega arith) in
    (next.0 ∙ doubled (length times) s.retransmit_timeout, λ r. next.1 (omega arith) ∙ omega arith)
