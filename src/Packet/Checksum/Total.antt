-- ===== src/Packet/Checksum/Total.antt =====
-- The sum of the 16-bit words of a byte string, and what writing one word does to it.
use yayatht.Base.{ℕ, zero, suc, ◌+◌, ◌*◌, ◌^◌, ◌≤◌, ◌<◌}
use yayatht.Base.{◌≡◌, refl}
use yayatht.Base.{List, [], ◌∷◌, arith}
use yayatht.Base.{length, splice, All, splice-nil}
use yayatht.Base.{IsU8, add32, be16}
use yayatht.Packet.Checksum.{sum_words}

-- The exact sum, with no wrap.
pub words_total : List ℕ → ℕ
words_total [] = 0
words_total (last ∷ []) = last * 256
words_total (hi ∷ lo ∷ rest) = be16 hi lo + words_total rest

-- While the exact sum fits 32 bits the `u32` additions do not wrap.
pub sum_words-eq :
    (s : ℕ) (bs : List ℕ) → s + words_total bs < 2 ^ 32 → sum_words s bs ≡ s + words_total bs
unfolding sum_words words_total
sum_words-eq s [] h = omega arith
sum_words-eq s (last ∷ []) h = omega arith
sum_words-eq s (hi ∷ lo ∷ rest) h =
    omega (arith, sum_words-eq (add32 s (be16 hi lo)) rest (omega arith))

-- The words of a byte string of length n sum to less than n / 2 times 65535, the odd byte rounded up.
pub words_total-le : (bs : List ℕ) → All IsU8 bs → words_total bs * 2 ≤ 65535 * (length bs + 1)
unfolding words_total
words_total-le [] h = omega arith
words_total-le (last ∷ []) h = omega arith
words_total-le (hi ∷ lo ∷ rest) h = omega (arith, words_total-le rest h.1.1)

-- The word at index k.
unfoldable pub word_at : List ℕ → ℕ → ℕ
word_at [] k = 0
word_at (last ∷ []) k = 0
word_at (hi ∷ lo ∷ rest) zero = be16 hi lo
word_at (hi ∷ lo ∷ rest) (suc k) = word_at rest k

-- Writing a word at an even offset exchanges it for the word that was there.
pub words_total-splice :
    (bs : List ℕ) (k at hi lo : ℕ)
    → at ≡ 2 * k
    → at + 2 ≤ length bs
    → words_total (splice bs at (hi ∷ lo ∷ [])) + word_at bs k ≡ words_total bs + be16 hi lo
unfolding words_total word_at
words_total-splice [] k at hi lo e h = absurd (omega arith)
words_total-splice (a ∷ []) k at hi lo e h = absurd (omega arith)
words_total-splice (a ∷ b ∷ rest) zero zero hi lo e h = rw splice-nil (omega arith)
words_total-splice (a ∷ b ∷ rest) zero (suc at) hi lo e h = absurd (omega arith)
words_total-splice (a ∷ b ∷ rest) (suc k) zero hi lo e h = absurd (omega arith)
words_total-splice (a ∷ b ∷ rest) (suc k) (suc zero) hi lo e h = absurd (omega arith)
words_total-splice (a ∷ b ∷ rest) (suc k) (suc (suc at)) hi lo e h =
    omega (arith, words_total-splice rest k at hi lo (omega arith) (omega arith))

pub word_at-splice :
    (bs : List ℕ) (k at hi lo : ℕ)
    → at ≡ 2 * k
    → at + 2 ≤ length bs
    → word_at (splice bs at (hi ∷ lo ∷ [])) k ≡ be16 hi lo
unfolding word_at
word_at-splice [] k at hi lo e h = absurd (omega arith)
word_at-splice (a ∷ []) k at hi lo e h = absurd (omega arith)
word_at-splice (a ∷ b ∷ rest) zero zero hi lo e h = refl
word_at-splice (a ∷ b ∷ rest) zero (suc at) hi lo e h = absurd (omega arith)
word_at-splice (a ∷ b ∷ rest) (suc k) zero hi lo e h = absurd (omega arith)
word_at-splice (a ∷ b ∷ rest) (suc k) (suc zero) hi lo e h = absurd (omega arith)
word_at-splice (a ∷ b ∷ rest) (suc k) (suc (suc at)) hi lo e h =
    word_at-splice rest k at hi lo (omega arith) (omega arith)
