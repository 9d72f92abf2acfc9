-- ===== src/Packet/Udp.antt =====
-- crates/packet/src/udp.rs: parsing and writing of UDP datagrams.
pub mod Laws
use yayatht.Base.{ℕ, zero, suc, ◌+◌, ◌-◌, ◌*◌, ◌/◌, ◌%◌, ◌^◌, ◌≤◌, ◌<◌, min, max, bit_and, bit_or}
use yayatht.Base.{
  ◌≡◌, refl, sym, ap, subst, ◌∙◌, ◌≢◌, ◌↔◌, ◌⊎◌, inl, inr, Bool, true, false, not, ◌&&◌, ◌||◌,
}
use yayatht.Base.{
  Option, none, some, List, [], ◌∷◌, ◌++◌, map, arith, ltb, leb, ◌==◌, if◌then◌else◌, ==_iff,
  Bool-cases, Option-cases, is_some,
}
use yayatht.Base.{
  length, get_elem?, get_or, set, take, drop, replicate, slice, splice, All, length-append,
  length-set, get_elem?-set_self, get_elem?-set_ne, get_elem?-lt, length-take, length-drop,
  length-replicate, length-splice, splice-nil, splice-splice, splice-zero, take-append, drop-append,
  take_all, drop-drop,
}
use yayatht.Base.{
  u8_max, u16_max, u32_max, u64_max, IsU8, IsU16, IsU32, u8, u16, u32, u64, add32, sub32, ◌<<<◌,
  ◌>>>◌, be16, bytes16, be32, bytes32, be16-bytes16, be32-bytes32,
}
use yayatht.Base.{
  zero-bit_or, bit_or-zero, bit_and-zero, bit_or_cut, bit_and_cut, bit_or_fields, bit_and_mask,
  bit_or_insert, bit_and_field,
}
use yayatht.Packet.Error.{
  PacketError, truncated, invalid_length, invalid_checksum, Result, ok, err, ◌>>=◌, byte_at, word16,
}
use yayatht.Packet.Checksum.{ipv4_transport, ipv6_transport}
use yayatht.Packet.Ip.{
  Ipv4Packet, Ipv6Packet, source_v4, destination_v4, payload_v4, source_v6, destination_v6,
  payload_v6, ipproto_udp,
}

abbrev pub udp_header_len : ℕ
udp_header_len = 8

-- A `UdpDatagram` is its bytes.
unfoldable pub parse : List ℕ → Result (List ℕ)
parse bytes =
    let length_field = word16 bytes 4 in
    if ltb (length bytes) udp_header_len
    then err truncated
    else if ltb length_field udp_header_len || ltb (length bytes) length_field
    then err invalid_length
    else ok (take length_field bytes)

unfoldable pub checksum_field : List ℕ → ℕ
checksum_field datagram = word16 datagram 6

unfoldable pub parse_ipv4 : Ipv4Packet → Bool → Result (List ℕ)
unfolding parse checksum_field payload_v4 source_v4 destination_v4 ipv4_transport
parse_ipv4 ip verify_checksum = parse (payload_v4 ip) >>= (λ datagram.
    let sum = ipv4_transport (source_v4 ip) (destination_v4 ip) ipproto_udp datagram in
    if verify_checksum && not (checksum_field datagram == 0) && not (sum == 0)
    then err invalid_checksum
    else ok datagram)

unfoldable pub parse_ipv6 : Ipv6Packet → Bool → Result (List ℕ)
unfolding parse checksum_field payload_v6 source_v6 destination_v6 ipv6_transport
parse_ipv6 ip verify_checksum = parse (payload_v6 ip) >>= (λ datagram.
    let sum = ipv6_transport (source_v6 ip) (destination_v6 ip) ipproto_udp datagram in
    if verify_checksum && (checksum_field datagram == 0 || not (sum == 0))
    then err invalid_checksum
    else ok datagram)

unfoldable pub source_port : List ℕ → ℕ
source_port datagram = word16 datagram 0

unfoldable pub destination_port : List ℕ → ℕ
destination_port datagram = word16 datagram 2

unfoldable pub payload : List ℕ → List ℕ
payload datagram = drop udp_header_len datagram

-- `checked_add` on `usize` is not exceeded by a length that fits in memory.
unfoldable pub write_header : List ℕ → ℕ → ℕ → ℕ → Result (ℕ × List ℕ)
write_header out src dst payload_len =
    let len = udp_header_len + payload_len in
    if ltb (length out) len || ltb u16_max len
    then err invalid_length
    else let out = splice out 0 (bytes16 src) in
      let out = splice out 2 (bytes16 dst) in
      let out = splice out 4 (bytes16 (u16 len)) in
      ok (udp_header_len, splice out 6 (replicate 2 0))

unfoldable pub set_ipv4_checksum : List ℕ → List ℕ → List ℕ → Result (List ℕ)
unfolding ipv4_transport
set_ipv4_checksum datagram src dst =
    if ltb (length datagram) udp_header_len
    then err truncated
    else let datagram = splice datagram 6 (replicate 2 0) in
      let value = ipv4_transport src dst ipproto_udp datagram in
      ok (splice datagram 6 (bytes16 (if value == 0 then 0xffff else value)))

unfoldable pub set_ipv6_checksum : List ℕ → List ℕ → List ℕ → Result (List ℕ)
unfolding ipv6_transport
set_ipv6_checksum datagram src dst =
    if ltb (length datagram) udp_header_len
    then err truncated
    else let datagram = splice datagram 6 (replicate 2 0) in
      let value = ipv6_transport src dst ipproto_udp datagram in
      ok (splice datagram 6 (bytes16 (if value == 0 then 0xffff else value)))
