-- ===== src/Tcp/Flow/Payload.antt =====
-- `newly_acked_payload`: SYN and FIN take sequence numbers and are no payload.
use yayatht.Base.{ℕ, ◌-◌, ◌^◌, ◌≤◌, ◌<◌, min, max}
use yayatht.Base.{◌≡◌, ◌⊎◌, inl, inr}
use yayatht.Base.{none, some, arith}
use yayatht.Base.{IsU32, add32}
use yayatht.Tcp.Sequence.{before, after, distance}
use yayatht.Tcp.Flow.{Flow, newly_acked_payload}

-- With the previous acknowledgment, the acknowledged point and the next number at offsets
-- `p ≤ a ≤ n` from the initial sequence number, the payload newly acknowledged is what lies between
-- `p` and `a` behind the SYN, which takes offset 0, and before the FIN, at offset `q` if one was sent.
pub newly_acked_payload_lem :
    (f : Flow) (p a n q : ℕ)
    → IsU32 f.local_initial
    → n < 2 ^ 31
    → p ≤ a
    → a ≤ n
    → 1 ≤ q
    → q ≤ n
    → f.local_unacked ≡ add32 f.local_initial a
    → f.local_next ≡ add32 f.local_initial n
    → ((f.local_fin_sequence ≡ none) × (q ≡ n))
      ⊎ (f.local_fin_sequence ≡ some (add32 f.local_initial q))
    → newly_acked_payload f (add32 f.local_initial p) ≡ min a q - max p 1
unfolding newly_acked_payload after before distance
newly_acked_payload_lem f p a n q hi hn pa an q1 qn ea en (inl (e, z)) = ground arith
newly_acked_payload_lem f p a n q hi hn pa an q1 qn ea en (inr e) = ground arith
