-- ===== src/Packet/Tcp.antt =====
-- crates/packet/src/tcp.rs: parsing and writing of TCP segments. A segment is the payload of an IP
-- packet; the functions that take a packet read its addresses for the pseudo header.
pub mod Options
pub mod RoundTrip
pub mod Sums
use yayatht.Base.{ℕ, zero, suc, ◌+◌, ◌-◌, ◌*◌, ◌/◌, ◌%◌, ◌^◌, ◌≤◌, ◌<◌, min, max, bit_and, bit_or}
use yayatht.Base.{
  ◌≡◌, refl, sym, ap, subst, ◌∙◌, ◌≢◌, ◌↔◌, ◌⊎◌, inl, inr, Bool, true, false, not, ◌&&◌, ◌||◌,
}
use yayatht.Base.{
  Option, none, some, List, [], ◌∷◌, ◌++◌, map, arith, ltb, leb, ◌==◌, if◌then◌else◌, ==_iff,
  Bool-cases, Option-cases, is_some,
}
use yayatht.Base.{
  length, get_elem?, get_or, set, take, drop, replicate, slice, splice, All, length-append,
  length-set, get_elem?-set_self, get_elem?-set_ne, get_elem?-lt, length-take, length-drop,
  length-replicate, length-splice, splice-nil, splice-splice, splice-zero, take-append, drop-append,
  take_all, drop-drop,
}
use yayatht.Base.{
  u8_max, u16_max, u32_max, u64_max, IsU8, IsU16, IsU32, u8, u16, u32, u64, add32, sub32, ◌<<<◌,
  ◌>>>◌, be16, bytes16, be32, bytes32, be16-bytes16, be32-bytes32,
}
use yayatht.Base.{
  zero-bit_or, bit_or-zero, bit_and-zero, bit_or_cut, bit_and_cut, bit_or_fields, bit_and_mask,
  bit_or_insert, bit_and_field,
}
use yayatht.Packet.Error.{
  PacketError, truncated, invalid_length, invalid_checksum, protocol_mismatch, Result, ok, err,
  byte_at, word16, word32,
}
use yayatht.Packet.Checksum.{ipv4_transport, ipv6_transport, ipv4_pseudo_header, ipv6_pseudo_header}
use yayatht.Packet.Ip.{
  Ipv4Packet, Ipv6Packet, source_v4, destination_v4, protocol, payload_v4, source_v6,
  destination_v6, payload_v6, ipproto_tcp,
}

abbrev pub tcp_min_header_len : ℕ
tcp_min_header_len = 20

pub record TcpFlags : Type 0 where
  pub fin : Bool
  pub syn : Bool
  pub rst : Bool
  pub psh : Bool
  pub ack : Bool

pub record TcpSegment : Type 0 where
  pub bytes : List ℕ
  pub header_len : ℕ

unfoldable pub parse : List ℕ → Result TcpSegment
parse bytes =
    let header_len = (byte_at bytes 12 >>> 4) * 4 in
    if ltb (length bytes) tcp_min_header_len
    then err truncated
    else if ltb header_len tcp_min_header_len || ltb (length bytes) header_len
    then err invalid_length
    else ok (record { bytes = bytes; header_len = header_len })

unfoldable pub parse_ipv4 : Ipv4Packet → Bool → Result TcpSegment
unfolding parse protocol payload_v4 source_v4 destination_v4 ipv4_transport
parse_ipv4 ip verify_checksum =
    let sum = ipv4_transport (source_v4 ip) (destination_v4 ip) 6 (payload_v4 ip) in
    if not (protocol ip == ipproto_tcp)
    then err protocol_mismatch
    else if verify_checksum && not (sum == 0)
    then err invalid_checksum
    else parse (payload_v4 ip)

unfoldable pub parse_ipv6 : Ipv6Packet → Bool → Result TcpSegment
unfolding parse payload_v6 source_v6 destination_v6 ipv6_transport
parse_ipv6 ip verify_checksum =
    let sum = ipv6_transport (source_v6 ip) (destination_v6 ip) 6 (payload_v6 ip) in
    if not (ip.next_header == ipproto_tcp)
    then err protocol_mismatch
    else if verify_checksum && not (sum == 0)
    then err invalid_checksum
    else parse (payload_v6 ip)

unfoldable pub source_port : TcpSegment → ℕ
source_port s = word16 s.bytes 0

unfoldable pub destination_port : TcpSegment → ℕ
destination_port s = word16 s.bytes 2

unfoldable pub sequence : TcpSegment → ℕ
sequence s = word32 s.bytes 4

unfoldable pub acknowledgment : TcpSegment → ℕ
acknowledgment s = word32 s.bytes 8

unfoldable pub flags_of : ℕ → TcpFlags
flags_of value = record {
  fin = not (bit_and value 0x01 == 0);
  syn = not (bit_and value 0x02 == 0);
  rst = not (bit_and value 0x04 == 0);
  psh = not (bit_and value 0x08 == 0);
  ack = not (bit_and value 0x10 == 0);
}

unfoldable pub flags : TcpSegment → TcpFlags
unfolding flags_of
flags s = flags_of (byte_at s.bytes 13)

unfoldable pub window : TcpSegment → ℕ
window s = word16 s.bytes 14

unfoldable pub payload : TcpSegment → List ℕ
payload s = drop s.header_len s.bytes

-- The loop of `find_option` over the option bytes, with a bound on its rounds; each round but the last
-- takes at least one byte, so their number is enough.
unfoldable pub find : ℕ → ℕ → ℕ → List ℕ → Option (List ℕ)
find zero wanted_kind wanted_len options = none
find (suc rounds) wanted_kind wanted_len [] = none
find (suc rounds) wanted_kind wanted_len (kind ∷ []) = none
find (suc rounds) wanted_kind wanted_len (kind ∷ len ∷ tail) =
    let skip = find rounds wanted_kind wanted_len (len ∷ tail) in
    let jump = find rounds wanted_kind wanted_len (drop (len - 2) tail) in
    if kind == 0
    then none
    else if kind == 1
    then skip
    else if ltb len 2 || ltb (length tail) (len - 2)
    then none
    else if kind == wanted_kind && len == wanted_len
    then some (take (len - 2) tail)
    else jump

unfoldable pub find_option : TcpSegment → ℕ → ℕ → Option (List ℕ)
unfolding find
find_option s wanted_kind wanted_len =
    let options = slice s.bytes tcp_min_header_len s.header_len in
    find (length options) wanted_kind wanted_len options

unfoldable pub first_word : Option (List ℕ) → Option ℕ
first_word none = none
first_word (some value) = some (word16 value 0)

unfoldable pub first_byte : Option (List ℕ) → Option ℕ
first_byte none = none
first_byte (some value) = some (byte_at value 0)

unfoldable pub mss : TcpSegment → Option ℕ
unfolding find_option first_word
mss s = first_word (find_option s 2 4)

unfoldable pub window_scale : TcpSegment → Option ℕ
unfolding find_option first_byte
window_scale s = first_byte (find_option s 3 3)

pub record TcpHeaderSpec : Type 0 where
  pub spec_source_port : ℕ
  pub spec_destination_port : ℕ
  pub spec_sequence : ℕ
  pub spec_acknowledgment : ℕ
  pub spec_flags : TcpFlags
  pub spec_window : ℕ
  pub spec_mss : Option ℕ
  pub spec_window_scale : Option ℕ

abbrev pub option_room : Option ℕ → ℕ
option_room none = 0
option_room (some value) = 4

abbrev pub flag_bit : Bool → ℕ
flag_bit true = 1
flag_bit false = 0

unfoldable pub flags_byte : TcpFlags → ℕ
flags_byte f =
    bit_or
      (bit_or (bit_or (bit_or (flag_bit f.fin) (flag_bit f.syn <<< 1)) (flag_bit f.rst <<< 2))
        (flag_bit f.psh <<< 3))
      (flag_bit f.ack <<< 4)

-- The two option blocks of `write_header`: the buffer and the cursor.
unfoldable pub write_mss : Option ℕ → ℕ → List ℕ → List ℕ
write_mss none cursor out = out
write_mss (some mss) cursor out =
    splice (set (set out cursor 2) (cursor + 1) 4) (cursor + 2) (bytes16 mss)

unfoldable pub write_window_scale : Option ℕ → ℕ → List ℕ → List ℕ
write_window_scale none cursor out = out
write_window_scale (some shift) cursor out =
    set (set (set (set out cursor 1) (cursor + 1) 3) (cursor + 2) 3) (cursor + 3) shift

unfoldable pub write_header : List ℕ → TcpHeaderSpec → Result (ℕ × List ℕ)
unfolding flags_byte write_mss write_window_scale
write_header out spec =
    let header_len =
      tcp_min_header_len + option_room spec.spec_mss + option_room spec.spec_window_scale in
    if ltb (length out) header_len
    then err truncated
    else let out = splice out 0 (replicate header_len 0) in
      let out = splice out 0 (bytes16 spec.spec_source_port) in
      let out = splice out 2 (bytes16 spec.spec_destination_port) in
      let out = splice out 4 (bytes32 spec.spec_sequence) in
      let out = splice out 8 (bytes32 spec.spec_acknowledgment) in
      let out = set out 12 (u8 ((u8 header_len / 4) <<< 4)) in
      let out = set out 13 (flags_byte spec.spec_flags) in
      let out = splice out 14 (bytes16 spec.spec_window) in
      let out = write_mss spec.spec_mss tcp_min_header_len out in
      let cursor = tcp_min_header_len + option_room spec.spec_mss in
      ok (header_len, write_window_scale spec.spec_window_scale cursor out)

unfoldable pub set_ipv4_checksum : List ℕ → List ℕ → List ℕ → Result (List ℕ)
unfolding ipv4_transport
set_ipv4_checksum tcp src dst =
    if ltb (length tcp) tcp_min_header_len
    then err truncated
    else let tcp = splice tcp 16 (replicate 2 0) in
      ok (splice tcp 16 (bytes16 (ipv4_transport src dst 6 tcp)))

unfoldable pub set_ipv6_checksum : List ℕ → List ℕ → List ℕ → Result (List ℕ)
unfolding ipv6_transport
set_ipv6_checksum tcp src dst =
    if ltb (length tcp) tcp_min_header_len
    then err truncated
    else let tcp = splice tcp 16 (replicate 2 0) in
      ok (splice tcp 16 (bytes16 (ipv6_transport src dst 6 tcp)))

unfoldable pub set_ipv4_partial_checksum : List ℕ → List ℕ → List ℕ → Result (List ℕ)
unfolding ipv4_pseudo_header
set_ipv4_partial_checksum tcp src dst =
    if ltb (length tcp) tcp_min_header_len
    then err truncated
    else ok (splice tcp 16 (bytes16 (ipv4_pseudo_header src dst 6 (length tcp))))

unfoldable pub set_ipv6_partial_checksum : List ℕ → List ℕ → List ℕ → Result (List ℕ)
unfolding ipv6_pseudo_header
set_ipv6_partial_checksum tcp src dst =
    if ltb (length tcp) tcp_min_header_len
    then err truncated
    else ok (splice tcp 16 (bytes16 (ipv6_pseudo_header src dst 6 (length tcp))))
