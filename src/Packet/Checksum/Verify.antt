-- ===== src/Packet/Checksum/Verify.antt =====
-- A checksum that was computed over a zero field and written into it verifies.
use yayatht.Base.{ℕ, ◌+◌, ◌*◌, ◌/◌, ◌%◌, ◌^◌, ◌≤◌, ◌<◌}
use yayatht.Base.{◌≡◌, ◌∙◌}
use yayatht.Base.{List, arith, ◌==◌, if◌then◌else◌}
use yayatht.Base.{length, splice}
use yayatht.Base.{IsU16, IsU32, bytes16}
use yayatht.Packet.Checksum.{sum_words, fold}
use yayatht.Packet.Checksum.Fold.{fold_sum-Folded, fold-zero_iff}
use yayatht.Packet.Checksum.Total.{words_total, sum_words-eq, word_at, words_total-splice}

-- A field of zero at an even offset, in bytes whose sum leaves room for it.
pub record ZeroField (seed : ℕ) (bytes : List ℕ) (at k : ℕ) : Type 0 where
  pub even : at ≡ 2 * k
  pub inside : at + 2 ≤ length bytes
  pub zero_word : word_at bytes k ≡ 0
  pub room : seed + words_total bytes + 65535 < 2 ^ 32

-- The sum once a 16-bit value stands in the field.
sum_words-filled :
    (seed : ℕ) (bytes : List ℕ) (at k value : ℕ)
    → ZeroField seed bytes at k
    → IsU16 value
    → sum_words seed (splice bytes at (bytes16 value)) ≡ seed + words_total bytes + value
sum_words-filled seed bytes at k value z h =
    let total = words_total-splice bytes k at (value / 256 % 256) (value % 256) z.even z.inside in
    sum_words-eq seed (splice bytes at (bytes16 value)) (omega (arith, total, z.room, z.zero_word))
    ∙ omega (arith, total, z.zero_word)

-- A 16-bit value in the field makes the whole verify if it completes the sum to a multiple of 65535
-- and is not zero beside a sum of zero.
pub fold-value :
    (seed : ℕ) (bytes : List ℕ) (at k value : ℕ)
    → ZeroField seed bytes at k
    → IsU16 value
    → (seed + words_total bytes + value) % 65535 ≡ 0
    → 0 < seed + words_total bytes + value
    → fold (sum_words seed (splice bytes at (bytes16 value))) ≡ 0
fold-value seed bytes at k value z h e pos =
    rw (sum_words-filled seed bytes at k value z h)
      ((fold-zero_iff (seed + words_total bytes + value) (omega (arith, z.room))).1 (e, pos))

-- The checksum of a sum, added to it, completes it.
pub fold-completes :
    (s : ℕ) → IsU32 s → (IsU16 (fold s)) × ((s + fold s) % 65535 ≡ 0) × (0 < s + fold s)
unfolding fold
fold-completes s h =
    let (f, lt) = fold_sum-Folded s h in (omega arith, omega (arith, f, lt), ground (arith, f, lt))

pub sum_words-zero :
    (seed : ℕ) (bytes : List ℕ) (at k : ℕ)
    → ZeroField seed bytes at k
    → sum_words seed bytes ≡ seed + words_total bytes
sum_words-zero seed bytes at k z = sum_words-eq seed bytes (omega (arith, z.room))

-- The checksum of bytes with a zero field, written into the field, makes the whole verify: the
-- checksum over it, from the same seed, is zero.
pub fold-filled :
    (seed : ℕ) (bytes : List ℕ) (at k : ℕ)
    → ZeroField seed bytes at k
    → fold (sum_words seed (splice bytes at (bytes16 (fold (sum_words seed bytes))))) ≡ 0
fold-filled seed bytes at k z =
    let c = fold-completes (seed + words_total bytes) (omega (arith, z.room)) in
    rw (sum_words-zero seed bytes at k z)
      (fold-value seed bytes at k (fold (seed + words_total bytes)) z c.0 c.1 c.2)

-- So does the UDP variant, which writes 0xffff where the checksum is zero.
pub fold-filled_nonzero :
    (seed : ℕ) (bytes : List ℕ) (at k : ℕ)
    → ZeroField seed bytes at k
    → let c = fold (sum_words seed bytes) in
      fold (sum_words seed (splice bytes at (bytes16 (if c == 0 then 0xffff else c)))) ≡ 0
fold-filled_nonzero seed bytes at k z =
    let s = seed + words_total bytes in
    let c = fold-completes s (omega (arith, z.room)) in
    rw (sum_words-zero seed bytes at k z) (
      fold-value seed bytes at k (if fold s == 0 then 0xffff else fold s) z (ground (arith, c))
        (ground (arith, c)) (ground (arith, c)))
