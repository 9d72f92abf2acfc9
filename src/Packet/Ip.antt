-- ===== src/Packet/Ip.antt =====
-- crates/packet/src/ip.rs: parsing and writing of IPv4 and IPv6 headers.
pub mod Headers
pub mod RoundTrip
use yayatht.Base.{ℕ, zero, suc, ◌+◌, ◌-◌, ◌*◌, ◌/◌, ◌%◌, ◌^◌, ◌≤◌, ◌<◌, min, max, bit_and, bit_or}
use yayatht.Base.{
  ◌≡◌, refl, sym, ap, subst, ◌∙◌, ◌≢◌, ◌↔◌, ◌⊎◌, inl, inr, Bool, true, false, not, ◌&&◌, ◌||◌,
}
use yayatht.Base.{
  Option, none, some, List, [], ◌∷◌, ◌++◌, map, arith, ltb, leb, ◌==◌, if◌then◌else◌, ==_iff,
  Bool-cases, Option-cases, is_some,
}
use yayatht.Base.{
  length, get_elem?, get_or, set, take, drop, replicate, slice, splice, All, length-append,
  length-set, get_elem?-set_self, get_elem?-set_ne, get_elem?-lt, length-take, length-drop,
  length-replicate, length-splice, splice-nil, splice-splice, splice-zero, take-append, drop-append,
  take_all, drop-drop,
}
use yayatht.Base.{
  u8_max, u16_max, u32_max, u64_max, IsU8, IsU16, IsU32, u8, u16, u32, u64, add32, sub32, ◌<<<◌,
  ◌>>>◌, be16, bytes16, be32, bytes32, be16-bytes16, be32-bytes32,
}
use yayatht.Base.{
  zero-bit_or, bit_or-zero, bit_and-zero, bit_or_cut, bit_and_cut, bit_or_fields, bit_and_mask,
  bit_or_insert, bit_and_field,
}
use yayatht.Packet.Error.{
  PacketError, truncated, invalid_length, unsupported, invalid_checksum, protocol_mismatch, Result,
  ok, err, byte_at, word16,
}
use yayatht.Packet.Checksum.{checksum}

abbrev pub ipproto_icmp : ℕ
ipproto_icmp = 1

abbrev pub ipproto_tcp : ℕ
ipproto_tcp = 6

abbrev pub ipproto_udp : ℕ
ipproto_udp = 17

abbrev pub ipproto_icmpv6 : ℕ
ipproto_icmpv6 = 58

pub record Ipv4Packet : Type 0 where
  pub bytes : List ℕ
  pub header_len : ℕ
  pub total_len : ℕ

pub parse_v4 : List ℕ → Result Ipv4Packet
parse_v4 bytes =
    let header_len = bit_and (byte_at bytes 0) 0x0f * 4 in
    let total_len = word16 bytes 2 in
    if ltb (length bytes) 20
    then err truncated
    else if not (byte_at bytes 0 >>> 4 == 4)
    then err protocol_mismatch
    else if ltb header_len 20 || ltb (length bytes) header_len
    then err invalid_length
    else if ltb total_len header_len || ltb (length bytes) total_len
    then err invalid_length
    else if not (bit_and (word16 bytes 6) 0x3fff == 0)
    then err unsupported
    else if not (checksum (take header_len bytes) == 0)
    then err invalid_checksum
    else ok (record { bytes = bytes; header_len = header_len; total_len = total_len })

unfoldable pub source_v4 : Ipv4Packet → List ℕ
source_v4 p = slice p.bytes 12 16

unfoldable pub destination_v4 : Ipv4Packet → List ℕ
destination_v4 p = slice p.bytes 16 20

unfoldable pub protocol : Ipv4Packet → ℕ
protocol p = byte_at p.bytes 9

unfoldable pub payload_v4 : Ipv4Packet → List ℕ
payload_v4 p = slice p.bytes p.header_len p.total_len

pub record Ipv6Packet : Type 0 where
  pub bytes : List ℕ
  pub payload_offset : ℕ
  pub total_len : ℕ
  pub next_header : ℕ

-- `matches!(next, 0 | 43 | 60 | 51)`.
abbrev pub is_extension : ℕ → Bool
is_extension next = next == 0 || next == 43 || next == 60 || next == 51

-- The length of the extension header at `offset`.
abbrev pub extension_len : List ℕ → ℕ → ℕ → ℕ
extension_len bytes current offset =
    if current == 51
    then (byte_at bytes (offset + 1) + 2) * 4
    else (byte_at bytes (offset + 1) + 1) * 8

-- The loop over the extension headers, with the headers left before the limit of eight. It returns
-- the upper-layer protocol and its offset.
pub walk : ℕ → List ℕ → ℕ → ℕ → ℕ → ℕ → Result (ℕ × ℕ)
walk zero bytes total_len next offset extension_bytes =
    if is_extension next then err unsupported else ok (next, offset)
walk (suc left) bytes total_len next offset extension_bytes =
    let len = extension_len bytes next offset in
    let rest =
      walk left bytes total_len (byte_at bytes offset) (offset + len) (extension_bytes + len) in
    if not (is_extension next)
    then ok (next, offset)
    else if ltb total_len (offset + 2)
    then err unsupported
    else if ltb 256 (extension_bytes + len) || ltb total_len (offset + len)
    then err unsupported
    else rest

pub finish_v6 : List ℕ → ℕ → Result (ℕ × ℕ) → Result Ipv6Packet
finish_v6 bytes total_len (err e) = err e
finish_v6 bytes total_len (ok (next, offset)) =
    if next == 44
    then err unsupported
    else ok (record {
      bytes = bytes;
      payload_offset = offset;
      total_len = total_len;
      next_header = next;
    })

pub parse_v6 : List ℕ → Result Ipv6Packet
unfolding finish_v6
parse_v6 bytes =
    let total_len = 40 + word16 bytes 4 in
    if ltb (length bytes) 40
    then err truncated
    else if not (byte_at bytes 0 >>> 4 == 6)
    then err protocol_mismatch
    else if ltb (length bytes) total_len
    then err truncated
    else finish_v6 bytes total_len (walk 8 bytes total_len (byte_at bytes 6) 40 0)

unfoldable pub source_v6 : Ipv6Packet → List ℕ
source_v6 p = slice p.bytes 8 24

unfoldable pub destination_v6 : Ipv6Packet → List ℕ
destination_v6 p = slice p.bytes 24 40

unfoldable pub payload_v6 : Ipv6Packet → List ℕ
payload_v6 p = slice p.bytes p.payload_offset p.total_len

unfoldable pub write_ipv4_header : List ℕ → List ℕ → List ℕ → ℕ → ℕ → ℕ → Result (ℕ × List ℕ)
write_ipv4_header out src dst proto payload_len identification =
    let total_len = 20 + payload_len in
    if ltb (length out) 20 || ltb u16_max total_len
    then err invalid_length
    else let out = splice out 0 (replicate 20 0) in
      let out = set out 0 0x45 in
      let out = splice out 2 (bytes16 total_len) in
      let out = splice out 4 (bytes16 identification) in
      let out = splice out 6 (bytes16 0x4000) in
      let out = set (set out 8 64) 9 proto in
      let out = splice (splice out 12 src) 16 dst in
      ok (20, splice out 10 (bytes16 (checksum (take 20 out))))

unfoldable pub write_ipv6_header : List ℕ → List ℕ → List ℕ → ℕ → ℕ → Result (ℕ × List ℕ)
write_ipv6_header out src dst next_header payload_len =
    if ltb (length out) 40 || ltb u16_max payload_len
    then err invalid_length
    else let out = splice out 0 (replicate 40 0) in
      let out = set out 0 0x60 in
      let out = splice out 4 (bytes16 payload_len) in
      let out = set (set out 6 next_header) 7 64 in ok (40, splice (splice out 8 src) 24 dst)
