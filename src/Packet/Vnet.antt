-- ===== src/Packet/Vnet.antt =====
-- crates/packet/src/vnet.rs: the `virtio_net_hdr` before each frame. Its words are in the machine's
-- byte order; `from_ne_bytes` and `to_ne_bytes` are read here as little-endian.
pub mod Laws
use yayatht.Base.{ℕ, zero, suc, ◌+◌, ◌-◌, ◌*◌, ◌/◌, ◌%◌, ◌^◌, ◌≤◌, ◌<◌, min, max, bit_and, bit_or}
use yayatht.Base.{
  ◌≡◌, refl, sym, ap, subst, ◌∙◌, ◌≢◌, ◌↔◌, ◌⊎◌, inl, inr, Bool, true, false, not, ◌&&◌, ◌||◌,
}
use yayatht.Base.{
  Option, none, some, List, [], ◌∷◌, ◌++◌, map, arith, ltb, leb, ◌==◌, if◌then◌else◌, ==_iff,
  Bool-cases, Option-cases, is_some,
}
use yayatht.Base.{
  length, get_elem?, get_or, set, take, drop, replicate, slice, splice, All, length-append,
  length-set, get_elem?-set_self, get_elem?-set_ne, get_elem?-lt, length-take, length-drop,
  length-replicate, length-splice, splice-nil, splice-splice, splice-zero, take-append, drop-append,
  take_all, drop-drop,
}
use yayatht.Base.{
  u8_max, u16_max, u32_max, u64_max, IsU8, IsU16, IsU32, u8, u16, u32, u64, add32, sub32, ◌<<<◌,
  ◌>>>◌, be16, bytes16, be32, bytes32, be16-bytes16, be32-bytes32,
}
use yayatht.Base.{
  zero-bit_or, bit_or-zero, bit_and-zero, bit_or_cut, bit_and_cut, bit_or_fields, bit_and_mask,
  bit_or_insert, bit_and_field,
}
use yayatht.Packet.Error.{PacketError, truncated, Result, ok, err, byte_at}

abbrev pub vnet_header_len : ℕ
vnet_header_len = 10

abbrev pub flag_needs_csum : ℕ
flag_needs_csum = 1

abbrev pub flag_data_valid : ℕ
flag_data_valid = 2

abbrev pub gso_none : ℕ
gso_none = 0

abbrev pub gso_tcpv4 : ℕ
gso_tcpv4 = 1

abbrev pub gso_tcpv6 : ℕ
gso_tcpv6 = 4

pub record VnetHeader : Type 0 where
  pub flags : ℕ
  pub gso_type : ℕ
  pub hdr_len : ℕ
  pub gso_size : ℕ
  pub csum_start : ℕ
  pub csum_offset : ℕ

abbrev pub ne16 : ℕ → ℕ → ℕ
ne16 first second = second * 256 + first

abbrev pub ne_bytes : ℕ → List ℕ
ne_bytes w = (w % 256) ∷ (w / 256 % 256) ∷ []

unfoldable pub parse : List ℕ → Result VnetHeader
parse bytes =
    if ltb (length bytes) vnet_header_len
    then err truncated
    else ok (record {
      flags = byte_at bytes 0;
      gso_type = byte_at bytes 1;
      hdr_len = ne16 (byte_at bytes 2) (byte_at bytes 3);
      gso_size = ne16 (byte_at bytes 4) (byte_at bytes 5);
      csum_start = ne16 (byte_at bytes 6) (byte_at bytes 7);
      csum_offset = ne16 (byte_at bytes 8) (byte_at bytes 9);
    })

unfoldable pub write : VnetHeader → List ℕ → Result (List ℕ)
write h out =
    if ltb (length out) vnet_header_len
    then err truncated
    else let out = set (set out 0 h.flags) 1 h.gso_type in
      let out = splice out 2 (ne_bytes h.hdr_len) in
      let out = splice out 4 (ne_bytes h.gso_size) in
      let out = splice out 6 (ne_bytes h.csum_start) in ok (splice out 8 (ne_bytes h.csum_offset))

-- `!FLAG_DATA_VALID` on `u8` is 0xfd.
unfoldable pub is_plain : VnetHeader → Bool
is_plain h = h.gso_type == gso_none && bit_and h.flags (u8_max - flag_data_valid) == 0
