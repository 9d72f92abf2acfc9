-- ===== src/Proxy/Datagram.antt =====
-- crates/proxy-proto/src/socks5_udp.rs: the SOCKS5 UDP header. An `Address` borrows what a
-- `SocksAddress` owns; here both are one type.
pub mod RoundTrip
use yayatht.Base.{ℕ, zero, suc, ◌+◌, ◌-◌, ◌*◌, ◌/◌, ◌%◌, ◌^◌, ◌≤◌, ◌<◌, min, max, bit_and, bit_or}
use yayatht.Base.{
  ◌≡◌, refl, sym, ap, subst, ◌∙◌, ◌≢◌, ◌↔◌, ◌⊎◌, inl, inr, Bool, true, false, not, ◌&&◌, ◌||◌,
}
use yayatht.Base.{
  Option, none, some, List, [], ◌∷◌, ◌++◌, map, arith, ltb, leb, ◌==◌, if◌then◌else◌, ==_iff,
  Bool-cases, Option-cases, is_some,
}
use yayatht.Base.{
  length, get_elem?, get_or, set, take, drop, replicate, slice, splice, All, length-append,
  length-set, get_elem?-set_self, get_elem?-set_ne, get_elem?-lt, length-take, length-drop,
  length-replicate, length-splice, splice-nil, splice-splice, splice-zero, take-append, drop-append,
  take_all, drop-drop, splice_over, take-append_more,
}
use yayatht.Base.{
  u8_max, u16_max, u32_max, u64_max, IsU8, IsU16, IsU32, u8, u16, u32, u64, add32, sub32, ◌<<<◌,
  ◌>>>◌, be16, bytes16, be32, bytes32, be16-bytes16, be32-bytes32,
}
use yayatht.Base.{
  zero-bit_or, bit_or-zero, bit_and-zero, bit_or_cut, bit_and_cut, bit_or_fields, bit_and_mask,
  bit_or_insert, bit_and_field,
}
use yayatht.Base.{byte_at, word16}
use yayatht.Net.{SocketAddr, v4, v6}
use yayatht.Proxy.Address.{SocksAddress, socket, domain}

pub record Datagram : Type 0 where
  pub destination : SocksAddress
  pub payload : List ℕ

pub data Error : Type 0 where
  truncated invalid_reserved : Error
  unsupported_fragment : ℕ → Error
  unsupported_address invalid_domain output_too_small : Error

pub data Result {ℓ} (A : Type ℓ) : Type ℓ where
  ok : A → Result A
  err : Error → Result A

-- The length of the address, or none where the domain is refused.
unfoldable pub address_len : SocksAddress → Option ℕ
address_len (socket (v4 octets port)) = some (1 + 4 + 2)
address_len (socket (v6 octets port)) = some (1 + 16 + 2)
address_len (domain name port) =
    if length name == 0 || ltb u8_max (length name) then none else some (1 + 1 + length name + 2)

-- The match that writes the address at `offset`.
unfoldable pub write_address : List ℕ → ℕ → SocksAddress → List ℕ × ℕ
write_address out offset (socket (v4 octets port)) =
    let out = splice (set out offset 1) (offset + 1) octets in
    (splice out (offset + 5) (bytes16 port), offset + 7)
write_address out offset (socket (v6 octets port)) =
    let out = splice (set out offset 4) (offset + 1) octets in
    (splice out (offset + 17) (bytes16 port), offset + 19)
write_address out offset (domain name port) =
    let out = set (set out offset 3) (offset + 1) (u8 (length name)) in
    let end = offset + 2 + length name in
    (splice (splice out (offset + 2) name) end (bytes16 port), end + 2)

unfoldable pub encode_at : List ℕ → SocksAddress → List ℕ → Option ℕ → Result (ℕ × List ℕ)
unfolding write_address
encode_at out destination payload none = err invalid_domain
encode_at out destination payload (some address_len) =
    let header_len = 3 + address_len in
    let total = header_len + length payload in
    if ltb (length out) total
    then err output_too_small
    else let written = write_address (splice out 0 (replicate 3 0)) 3 destination in
      ok (total, splice written.0 written.1 payload)

-- `checked_add` on `usize` is not exceeded by a length that fits in memory.
unfoldable pub encode : List ℕ → SocksAddress → List ℕ → Result (ℕ × List ℕ)
unfolding encode_at address_len
encode out destination payload = encode_at out destination payload (address_len destination)

-- The match on the address type: the destination and the offset of the payload.
unfoldable pub decode_address : List ℕ → Result (SocksAddress × ℕ)
decode_address input =
    let name_len = byte_at input 4 in
    let end = 5 + name_len in
    if byte_at input 3 == 1
    then (if ltb (length input) 10
        then err truncated
        else ok (socket (v4 (slice input 4 8) (word16 input 8)), 10))
    else if byte_at input 3 == 4
    then (if ltb (length input) 22
        then err truncated
        else ok (socket (v6 (slice input 4 20) (word16 input 20)), 22))
    else if byte_at input 3 == 3
    then (if ltb (length input) 5
        then err truncated
        else if name_len == 0
        then err invalid_domain
        else if ltb (length input) (end + 2)
        then err truncated
        else ok (domain (slice input 5 end) (word16 input end), end + 2))
    else err unsupported_address

unfoldable pub with_payload : List ℕ → Result (SocksAddress × ℕ) → Result Datagram
with_payload input (err e) = err e
with_payload input (ok (destination, offset)) =
    ok (record { destination = destination; payload = drop offset input })

unfoldable pub decode : List ℕ → Result Datagram
unfolding with_payload decode_address
decode input =
    if ltb (length input) 4
    then err truncated
    else if not (byte_at input 0 == 0) || not (byte_at input 1 == 0)
    then err invalid_reserved
    else if not (byte_at input 2 == 0)
    then err (unsupported_fragment (byte_at input 2))
    else with_payload input (decode_address input)
