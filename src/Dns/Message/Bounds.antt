-- ===== src/Dns/Message/Bounds.antt =====
-- Where a name that is skipped ends, and which slice of the message a question is.
use yayatht.Base.{ℕ, zero, suc, ◌+◌, ◌≤◌, ◌<◌}
use yayatht.Base.{◌≡◌, refl, inl, inr, Bool, true, false}
use yayatht.Base.{Option, none, some, List, arith, if◌then◌else◌, Option-cases}
use yayatht.Base.{length, get_elem?, slice, get_elem?-lt, byte_at}
use yayatht.Dns.Message.{header_len, skip_label, skip_from, question_to}

-- A name that is skipped ends after its start and inside the message.
pub skip_from-inside :
    (rounds : ℕ) (message : List ℕ) (offset end : ℕ)
    → skip_from rounds message offset ≡ some end
    → (offset < end) × (end ≤ length message)
unfolding skip_from skip_label
skip_from-inside zero message offset end h = absurd cc
skip_from-inside (suc rounds) message offset end h =
    let ih = skip_from-inside rounds message (offset + (byte_at message offset + 1)) end in
    elim (Option-cases (get_elem? message offset)) [
      | inl out ↦ absurd (ground (arith, out))
      | inr (len, found) ↦
          let inside = get_elem?-lt message offset len found in
          (ground (arith, found, inside), ground (arith, found, inside))
    ]

-- The slice of a question, behind a name that was skipped.
pub question_to-some :
    (message question : List ℕ) (end : Option ℕ)
    → question_to message end ≡ some question
    → (name_end : ℕ) × (end ≡ some name_end)
      × (name_end + 4 ≤ length message)
      × (question ≡ slice message header_len (name_end + 4))
unfolding question_to
question_to-some message question none h = absurd cc
question_to-some message question (some name_end) h = (name_end, refl, ground arith, ground arith)

pub unless {ℓ} :
    {A : Type ℓ} (b : Bool) (o : Option A) (a : A) → (if b then none else o) ≡ some a → o ≡ some a
unless true o a h = absurd cc
unless false o a h = h
