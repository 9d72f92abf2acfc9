-- ===== src/Packet/Tcp/Sums.antt =====
-- The TCP checksum: what the setters write verifies, and what a device completes verifies.
use yayatht.Base.{ℕ, ◌≤◌}
use yayatht.Base.{◌≡◌, refl, ◌∙◌}
use yayatht.Base.{List, [], ◌∷◌, arith}
use yayatht.Base.{length, splice, length-splice}
use yayatht.Base.{bytes16}
use yayatht.Packet.Error.{ok}
use yayatht.Packet.Checksum.{
  checksum, fold_sum, ipv4_seed, ipv4_transport, ipv6_seed, ipv6_transport, ipv4_pseudo_header,
  ipv6_pseudo_header,
}
use yayatht.Packet.Checksum.Verify.{fold-filled}
use yayatht.Packet.Checksum.Transport.{
  IsAddress, IsSegment, ipv4_seed-le, ipv6_seed-le, cleared-ZeroField, fold-partial_over,
}
use yayatht.Packet.Tcp.{
  set_ipv4_checksum, set_ipv6_checksum, set_ipv4_partial_checksum, set_ipv6_partial_checksum,
}

-- On every segment of at least a header that fits a packet the setter returns a segment of the same
-- length whose IPv4 checksum verifies.
pub ipv4_transport-set_ipv4_checksum :
    (tcp src dst : List ℕ)
    → IsSegment tcp 16
    → 20 ≤ length tcp
    → IsAddress 4 src
    → IsAddress 4 dst
    → (out : List ℕ) × (set_ipv4_checksum tcp src dst ≡ ok out)
      × (length out ≡ length tcp)
      × (ipv4_transport src dst 6 out ≡ 0)
unfolding set_ipv4_checksum ipv4_transport
ipv4_transport-set_ipv4_checksum tcp src dst s h a b =
    let clear = splice tcp 16 (0 ∷ 0 ∷ []) in
    let c = ipv4_transport src dst 6 clear in
    let n : length clear ≡ length tcp = length-splice tcp 16 (0 ∷ 0 ∷ []) in
    let seed = ipv4_seed-le src dst 6 (length tcp) a b (omega arith) s.segment_len in
    let z = cleared-ZeroField (ipv4_seed src dst 6 (length tcp)) tcp 16 8 s refl seed in
    (
      splice clear 16 (bytes16 c),
      ground arith,
      length-splice clear 16 (bytes16 c) ∙ n,
      rw (length-splice clear 16, n) (fold-filled (ipv4_seed src dst 6 (length tcp)) clear 16 8 z),
    )

-- On every segment of at least a header that fits a packet, with two IPv6 addresses, the
-- setter returns a segment of the same length whose IPv6 checksum verifies.
pub ipv6_transport-set_ipv6_checksum :
    (tcp src dst : List ℕ)
    → IsSegment tcp 16
    → 20 ≤ length tcp
    → IsAddress 16 src
    → IsAddress 16 dst
    → (out : List ℕ) × (set_ipv6_checksum tcp src dst ≡ ok out)
      × (length out ≡ length tcp)
      × (ipv6_transport src dst 6 out ≡ 0)
unfolding set_ipv6_checksum ipv6_transport
ipv6_transport-set_ipv6_checksum tcp src dst s h a b =
    let clear = splice tcp 16 (0 ∷ 0 ∷ []) in
    let c = ipv6_transport src dst 6 clear in
    let n : length clear ≡ length tcp = length-splice tcp 16 (0 ∷ 0 ∷ []) in
    let seed = ipv6_seed-le src dst 6 (length tcp) a b (omega arith) s.segment_len in
    let z = cleared-ZeroField (ipv6_seed src dst 6 (length tcp)) tcp 16 8 s refl seed in
    (
      splice clear 16 (bytes16 c),
      ground arith,
      length-splice clear 16 (bytes16 c) ∙ n,
      rw (length-splice clear 16, n) (fold-filled (ipv6_seed src dst 6 (length tcp)) clear 16 8 z),
    )

-- On every segment of at least a header that fits a packet, the setter of the partial checksum
-- returns a segment such that the Internet checksum of the segment alone, written into the checksum
-- field, makes the whole verify with its IPv4 pseudo header.
pub ipv4_transport-partial :
    (tcp src dst : List ℕ)
    → IsSegment tcp 16
    → 20 ≤ length tcp
    → IsAddress 4 src
    → IsAddress 4 dst
    → (out : List ℕ) × (set_ipv4_partial_checksum tcp src dst ≡ ok out)
      × (ipv4_transport src dst 6 (splice out 16 (bytes16 (checksum out))) ≡ 0)
unfolding set_ipv4_partial_checksum ipv4_transport ipv4_pseudo_header
ipv4_transport-partial tcp src dst s h a b =
    let seed = ipv4_seed src dst 6 (length tcp) in
    let out = splice tcp 16 (bytes16 (fold_sum seed)) in
    let small = ipv4_seed-le src dst 6 (length tcp) a b (omega arith) s.segment_len in
    (
      out,
      ground arith,
      rw (length-splice out 16, length-splice tcp 16)
          (fold-partial_over seed tcp 16 8 s refl small),
    )

-- On every segment of at least a header that fits a packet, with two IPv6 addresses, the
-- setter of the partial checksum returns a segment such that the Internet checksum of the segment
-- alone, written into the checksum field, makes the whole verify with its IPv6 pseudo header.
pub ipv6_transport-partial :
    (tcp src dst : List ℕ)
    → IsSegment tcp 16
    → 20 ≤ length tcp
    → IsAddress 16 src
    → IsAddress 16 dst
    → (out : List ℕ) × (set_ipv6_partial_checksum tcp src dst ≡ ok out)
      × (ipv6_transport src dst 6 (splice out 16 (bytes16 (checksum out))) ≡ 0)
unfolding set_ipv6_partial_checksum ipv6_transport ipv6_pseudo_header
ipv6_transport-partial tcp src dst s h a b =
    let seed = ipv6_seed src dst 6 (length tcp) in
    let out = splice tcp 16 (bytes16 (fold_sum seed)) in
    let small = ipv6_seed-le src dst 6 (length tcp) a b (omega arith) s.segment_len in
    (
      out,
      ground arith,
      rw (length-splice out 16, length-splice tcp 16)
          (fold-partial_over seed tcp 16 8 s refl small),
    )
