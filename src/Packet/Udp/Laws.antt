-- ===== src/Packet/Udp/Laws.antt =====
-- UDP: a written header is read back, and the checksum that is set verifies.
use yayatht.Base.{ℕ, zero, suc, ◌+◌, ◌/◌, ◌%◌, ◌≤◌, ◌<◌}
use yayatht.Base.{◌≡◌, refl, ap, ◌∙◌}
use yayatht.Base.{List, [], ◌∷◌, ◌++◌, arith, ◌==◌, if◌then◌else◌}
use yayatht.Base.{
  length, take, drop, splice, length-drop, length-splice, splice-splice, splice-zero,
  take-append_more,
}
use yayatht.Base.{u16_max, IsU16, u16, be16, bytes16}
use yayatht.Packet.Error.{ok, byte_at, word16}
use yayatht.Packet.Checksum.Fold.{fold-le}
use yayatht.Packet.Checksum.{sum_words, ipv4_seed, ipv4_transport, ipv6_seed, ipv6_transport}
use yayatht.Packet.Checksum.Verify.{fold-filled_nonzero}
use yayatht.Packet.Checksum.Transport.{
  IsAddress, IsSegment, ipv4_seed-le, ipv6_seed-le, cleared-ZeroField,
}
use yayatht.Packet.Udp.{
  parse, source_port, destination_port, payload, checksum_field, write_header, set_ipv4_checksum,
  set_ipv6_checksum,
}

-- The four fields, written one after the other, are a prefix of the buffer.
header_lem :
    (out : List ℕ) (src dst len : ℕ)
    → 8 ≤ length out
    → splice
        (splice (splice (splice out 0 (bytes16 src)) 2 (bytes16 dst)) 4 (bytes16 len))
        6
        (0 ∷ 0 ∷ [])
      ≡ (bytes16 src ++ bytes16 dst ++ bytes16 len ++ 0 ∷ 0 ∷ []) ++ drop 8 out
header_lem out src dst len h =
    rw
      (
        splice-splice out 0 (bytes16 src) (bytes16 dst) 2 refl,
        splice-splice out 0 (bytes16 src ++ bytes16 dst) (bytes16 len) 4 refl,
        splice-splice out 0 (bytes16 src ++ bytes16 dst ++ bytes16 len) (0 ∷ 0 ∷ []) 6 refl,
      )
      (splice-zero out (bytes16 src ++ bytes16 dst ++ bytes16 len ++ 0 ∷ 0 ∷ []) h)

-- A header written before a payload of n bytes that fits the buffer and the length field is parsed
-- as a datagram with the same ports, the payload that stood behind the header, cut to n bytes, and a
-- checksum field of zero.
pub parse-write_header :
    (out : List ℕ) (src dst n : ℕ)
    → IsU16 src
    → IsU16 dst
    → 8 + n ≤ length out
    → 8 + n ≤ u16_max
    → (written datagram : List ℕ) × (write_header out src dst n ≡ ok (8, written))
      × (parse written ≡ ok datagram)
      × (source_port datagram ≡ src)
      × (destination_port datagram ≡ dst)
      × (payload datagram ≡ take n (drop 8 out))
      × (checksum_field datagram ≡ 0)
unfolding write_header parse source_port destination_port payload checksum_field
parse-write_header out src dst n hs hd h w =
    let header = bytes16 src ++ bytes16 dst ++ bytes16 (u16 (8 + n)) ++ 0 ∷ 0 ∷ [] in
    let cut = take-append_more (8 + n) n header (drop 8 out) refl in
    let len : word16 (header ++ drop 8 out) 4 ≡ 8 + n = omega (arith, w) in
    let room = length-drop 8 out in
    (
      header ++ drop 8 out,
      header ++ take n (drop 8 out),
      ground (arith, header_lem out src dst (u16 (8 + n)) (omega arith)),
      ground (arith, cut, len, room),
      omega (arith, hs),
      omega (arith, hd),
      refl,
      refl,
    )

-- A word that was written inside the bytes is read back.
word16-splice :
    (xs : List ℕ) (at hi lo : ℕ)
    → at + 2 ≤ length xs
    → word16 (splice xs at (hi ∷ lo ∷ [])) at ≡ be16 hi lo
word16-splice [] at hi lo h = absurd (omega arith)
word16-splice (x ∷ []) zero hi lo h = absurd (omega arith)
word16-splice (x ∷ y ∷ rest) zero hi lo h = refl
word16-splice (x ∷ xs) (suc at) hi lo h =
    let shift : suc at + 1 ≡ suc (at + 1) = omega arith in
    let out = splice xs at (hi ∷ lo ∷ []) in
    ap (λ k. be16 (byte_at out at) (byte_at (x ∷ out) k)) shift
    ∙ word16-splice xs at hi lo (omega arith)

-- On every datagram of at least a header that fits a packet the setter returns a datagram of the same
-- length whose checksum field is not zero and whose IPv4 checksum verifies.
pub ipv4_transport-set_ipv4_checksum_udp :
    (datagram src dst : List ℕ)
    → IsSegment datagram 6
    → IsAddress 4 src
    → IsAddress 4 dst
    → (out : List ℕ) × (set_ipv4_checksum datagram src dst ≡ ok out)
      × (length out ≡ length datagram)
      × (0 < checksum_field out)
      × (ipv4_transport src dst 17 out ≡ 0)
unfolding set_ipv4_checksum ipv4_transport checksum_field
ipv4_transport-set_ipv4_checksum_udp datagram src dst s a b =
    let clear = splice datagram 6 (0 ∷ 0 ∷ []) in
    let c = ipv4_transport src dst 17 clear in
    let value = if c == 0 then 0xffff else c in
    let n : length clear ≡ length datagram = length-splice datagram 6 (0 ∷ 0 ∷ []) in
    let seed = ipv4_seed-le src dst 17 (length datagram) a b (omega arith) s.segment_len in
    let z = cleared-ZeroField (ipv4_seed src dst 17 (length datagram)) datagram 6 3 s refl seed in
    (
      splice clear 6 (bytes16 value),
      ground (arith, s.field_inside),
      length-splice clear 6 (bytes16 value) ∙ n,
      ground (
        arith,
        word16-splice clear 6 (value / 256 % 256) (value % 256) (omega (arith, n, s.field_inside)),
        fold-le (sum_words (ipv4_seed src dst 17 (length clear)) clear),
      ),
      rw (length-splice clear 6, n)
          (fold-filled_nonzero (ipv4_seed src dst 17 (length datagram)) clear 6 3 z),
    )

-- On every datagram of at least a header that fits a packet, with two IPv6 addresses, the setter
-- returns a datagram of the same length whose checksum field is not zero and whose IPv6 checksum
-- verifies.
pub ipv6_transport-set_ipv6_checksum_udp :
    (datagram src dst : List ℕ)
    → IsSegment datagram 6
    → IsAddress 16 src
    → IsAddress 16 dst
    → (out : List ℕ) × (set_ipv6_checksum datagram src dst ≡ ok out)
      × (length out ≡ length datagram)
      × (0 < checksum_field out)
      × (ipv6_transport src dst 17 out ≡ 0)
unfolding set_ipv6_checksum ipv6_transport checksum_field
ipv6_transport-set_ipv6_checksum_udp datagram src dst s a b =
    let clear = splice datagram 6 (0 ∷ 0 ∷ []) in
    let c = ipv6_transport src dst 17 clear in
    let value = if c == 0 then 0xffff else c in
    let n : length clear ≡ length datagram = length-splice datagram 6 (0 ∷ 0 ∷ []) in
    let seed = ipv6_seed-le src dst 17 (length datagram) a b (omega arith) s.segment_len in
    let z = cleared-ZeroField (ipv6_seed src dst 17 (length datagram)) datagram 6 3 s refl seed in
    (
      splice clear 6 (bytes16 value),
      ground (arith, s.field_inside),
      length-splice clear 6 (bytes16 value) ∙ n,
      ground (
        arith,
        word16-splice clear 6 (value / 256 % 256) (value % 256) (omega (arith, n, s.field_inside)),
        fold-le (sum_words (ipv6_seed src dst 17 (length clear)) clear),
      ),
      rw (length-splice clear 6, n)
          (fold-filled_nonzero (ipv6_seed src dst 17 (length datagram)) clear 6 3 z),
    )
