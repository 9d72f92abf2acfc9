-- ===== src/Packet/Ethernet.antt =====
-- crates/packet/src/ethernet.rs: the Ethernet header.
pub mod Header
use yayatht.Base.{ℕ, zero, suc, ◌+◌, ◌-◌, ◌*◌, ◌/◌, ◌%◌, ◌^◌, ◌≤◌, ◌<◌, min, max, bit_and, bit_or}
use yayatht.Base.{
  ◌≡◌, refl, sym, ap, subst, ◌∙◌, ◌≢◌, ◌↔◌, ◌⊎◌, inl, inr, Bool, true, false, not, ◌&&◌, ◌||◌,
}
use yayatht.Base.{
  Option, none, some, List, [], ◌∷◌, ◌++◌, map, arith, ltb, leb, ◌==◌, if◌then◌else◌, ==_iff,
  Bool-cases, Option-cases, is_some,
}
use yayatht.Base.{
  length, get_elem?, get_or, set, take, drop, replicate, slice, splice, All, length-append,
  length-set, get_elem?-set_self, get_elem?-set_ne, get_elem?-lt, length-take, length-drop,
  length-replicate, length-splice, splice-nil, splice-splice, splice-zero, take-append, drop-append,
  take_all, drop-drop,
}
use yayatht.Base.{
  u8_max, u16_max, u32_max, u64_max, IsU8, IsU16, IsU32, u8, u16, u32, u64, add32, sub32, ◌<<<◌,
  ◌>>>◌, be16, bytes16, be32, bytes32, be16-bytes16, be32-bytes32,
}
use yayatht.Base.{
  zero-bit_or, bit_or-zero, bit_and-zero, bit_or_cut, bit_and_cut, bit_or_fields, bit_and_mask,
  bit_or_insert, bit_and_field,
}
use yayatht.Packet.Error.{PacketError, truncated, Result, ok, err, byte_at, word16}

abbrev pub ethernet_header_len : ℕ
ethernet_header_len = 14

-- A MAC address is its six bytes.
pub data EtherType : Type 0 where
  ipv4 arp ipv6 : EtherType
  other : ℕ → EtherType

unfoldable pub from_raw : ℕ → EtherType
from_raw value =
    if value == 0x0800
    then ipv4
    else if value == 0x0806
    then arp
    else if value == 0x86dd
    then ipv6
    else other value

unfoldable pub raw : EtherType → ℕ
raw ipv4 = 0x0800
raw arp = 0x0806
raw ipv6 = 0x86dd
raw (other value) = value

-- An `EthernetFrame` is its bytes.
unfoldable pub parse : List ℕ → Result (List ℕ)
parse bytes = if ltb (length bytes) ethernet_header_len then err truncated else ok bytes

unfoldable pub destination : List ℕ → List ℕ
destination frame = slice frame 0 6

unfoldable pub source : List ℕ → List ℕ
source frame = slice frame 6 12

unfoldable pub ether_type : List ℕ → EtherType
unfolding from_raw
ether_type frame = from_raw (word16 frame 12)

unfoldable pub payload : List ℕ → List ℕ
payload frame = drop ethernet_header_len frame

unfoldable pub write_header : List ℕ → List ℕ → List ℕ → EtherType → Result (List ℕ)
unfolding raw
write_header out dst src kind =
    if ltb (length out) ethernet_header_len
    then err truncated
    else ok (splice (splice (splice out 0 dst) 6 src) 12 (bytes16 (raw kind)))
