-- ===== src/Packet/Checksum/Transport.antt =====
-- The checksums over a transport segment and its pseudo header: a segment whose checksum field was
-- filled in verifies.
use yayatht.Base.{ℕ, ◌+◌, ◌*◌, ◌/◌, ◌%◌, ◌^◌, ◌≤◌, ◌<◌}
use yayatht.Base.{◌≡◌, refl, sym, subst, ◌∙◌}
use yayatht.Base.{List, [], ◌∷◌, arith}
use yayatht.Base.{length, splice, All, length-splice, splice_over}
use yayatht.Base.{IsU8, IsU32, bytes16}
use yayatht.Packet.Checksum.{sum_words, fold, fold_sum, checksum, ipv4_seed, ipv6_seed}
use yayatht.Packet.Checksum.Fold.{fold_sum-Folded}
use yayatht.Packet.Checksum.Total.{
  sum_words-eq, words_total, words_total-le, words_total-splice, word_at-splice,
}
use yayatht.Packet.Checksum.Verify.{ZeroField, fold-value, fold-completes}

-- An address of n bytes.
pub record IsAddress (n : ℕ) (address : List ℕ) : Type 0 where
  pub address_len : length address ≡ n
  pub address_bytes : All IsU8 address

-- The bytes of a segment that an IP packet can hold, with room for a 16-bit field.
pub record IsSegment (bytes : List ℕ) (at : ℕ) : Type 0 where
  pub segment_bytes : All IsU8 bytes
  pub segment_len : length bytes ≤ 65535
  pub field_inside : at + 2 ≤ length bytes

pub address_total :
    (n : ℕ) (address : List ℕ) → IsAddress n address → words_total address * 2 ≤ 65535 * (n + 1)
address_total n address a = omega (arith, words_total-le address a.address_bytes, a.address_len)

pub ipv4_seed-le :
    (src dst : List ℕ) (protocol len : ℕ)
    → IsAddress 4 src
    → IsAddress 4 dst
    → IsU8 protocol
    → len ≤ 65535
    → ipv4_seed src dst protocol len ≤ 25 * 65535
unfolding ipv4_seed
ipv4_seed-le src dst protocol len a b p h =
    let s = address_total 4 src a in
    let d = address_total 4 dst b in
    omega (
      arith,
      s,
      d,
      sum_words-eq 0 src (omega (arith, s)),
      sum_words-eq (sum_words 0 src) dst
          (omega (arith, s, d, sum_words-eq 0 src (omega (arith, s)))),
    )

pub ipv6_seed-le :
    (src dst : List ℕ) (protocol len : ℕ)
    → IsAddress 16 src
    → IsAddress 16 dst
    → IsU8 protocol
    → len ≤ 65535
    → ipv6_seed src dst protocol len ≤ 25 * 65535
unfolding ipv6_seed sum_words
ipv6_seed-le src dst protocol len a b p h =
    let s = address_total 16 src a in
    let d = address_total 16 dst b in
    omega (
      arith,
      s,
      d,
      sum_words-eq 0 src (omega (arith, s)),
      sum_words-eq (sum_words 0 src) dst
          (omega (arith, s, d, sum_words-eq 0 src (omega (arith, s)))),
    )

-- The field of a segment that was cleared is a zero field.
pub cleared-ZeroField :
    (seed : ℕ) (bytes : List ℕ) (at k : ℕ)
    → IsSegment bytes at
    → at ≡ 2 * k
    → seed ≤ 25 * 65535
    → ZeroField seed (splice bytes at (0 ∷ 0 ∷ [])) at k
cleared-ZeroField seed bytes at k s e h =
    let total = words_total-splice bytes k at 0 0 e s.field_inside in
    let bound = words_total-le bytes s.segment_bytes in
    record {
      even = e;
      inside = omega (arith, s.field_inside, length-splice bytes at (0 ∷ 0 ∷ []));
      zero_word = word_at-splice bytes k at 0 0 e s.field_inside;
      room = omega (arith, total, bound, s.segment_len);
    }

-- The sum that a device takes over a segment whose field holds the folded seed, written into the
-- field, makes the segment verify from the seed.
pub fold-partial :
    (seed : ℕ) (bytes : List ℕ) (at k : ℕ)
    → ZeroField seed bytes at k
    → IsU32 seed
    → fold (
        sum_words seed
          (splice bytes at (bytes16 (checksum (splice bytes at (bytes16 (fold_sum seed)))))))
      ≡ 0
unfolding checksum
fold-partial seed bytes at k z u =
    let (folded, lt) = fold_sum-Folded seed u in
    let p = fold_sum seed in
    let total = words_total-splice bytes k at (p / 256 % 256) (p % 256) z.even z.inside in
    let filled : words_total (splice bytes at (bytes16 p)) ≡ words_total bytes + p =
      omega (arith, total, z.zero_word) in
    let room : words_total bytes + p < 2 ^ 32 = omega (arith, z.room) in
    let sum : sum_words 0 (splice bytes at (bytes16 p)) ≡ words_total bytes + p =
      sum_words-eq 0 (splice bytes at (bytes16 p)) (omega (arith, filled, room))
      ∙ omega (arith, filled) in
    let c = fold-completes (words_total bytes + p) room in
    rw sum (
      fold-value seed bytes at k (fold (words_total bytes + p)) z c.0
        (omega (arith, c.1, folded.congruent)) (ground (arith, c.2, folded.zero)))

-- The same for a field that was not cleared before the folded seed was written.
pub fold-partial_over :
    (seed : ℕ) (bytes : List ℕ) (at k : ℕ)
    → IsSegment bytes at
    → at ≡ 2 * k
    → seed ≤ 25 * 65535
    → let out = splice bytes at (bytes16 (fold_sum seed)) in
      fold (sum_words seed (splice out at (bytes16 (checksum out)))) ≡ 0
fold-partial_over seed bytes at k s e h =
    let out = splice bytes at (bytes16 (fold_sum seed)) in
    let p = bytes16 (fold_sum seed) in
    let over : splice (splice bytes at (0 ∷ 0 ∷ [])) at p ≡ out =
      splice_over bytes at (0 ∷ 0 ∷ []) p refl in
    let final : splice (splice bytes at (0 ∷ 0 ∷ [])) at (bytes16 (checksum out))
        ≡ splice out at (bytes16 (checksum out)) =
      splice_over bytes at (0 ∷ 0 ∷ []) (bytes16 (checksum out)) refl
      ∙ sym (splice_over bytes at p (bytes16 (checksum out)) refl) in
    let done =
      fold-partial seed (splice bytes at (0 ∷ 0 ∷ [])) at k
        (cleared-ZeroField seed bytes at k s e h) (omega (arith, h)) in
    subst (λ b. fold (sum_words seed b) ≡ 0) final
      (subst
        (λ b.
          fold (sum_words seed (splice (splice bytes at (0 ∷ 0 ∷ [])) at (bytes16 (checksum b))))
          ≡ 0)
        over done)
