-- ===== src/Proxy/Datagram/RoundTrip.antt =====
-- A SOCKS5 UDP datagram that is encoded is decoded to itself.
use yayatht.Base.{ℕ, ◌+◌, ◌-◌, ◌≤◌, ◌<◌}
use yayatht.Base.{◌≡◌, refl, sym, ◌∙◌, ◌↔◌, ◌⊎◌, false}
use yayatht.Base.{some, List, [], ◌∷◌, ◌++◌, arith, ltb, ◌==◌}
use yayatht.Base.{
  length, take, drop, replicate, splice, length-append, splice-splice, splice-zero, take-append,
  set-splice, drop-after, word16-after,
}
use yayatht.Base.{u8_max, IsU16, u8, bytes16}
use yayatht.Net.{v4, v6}
use yayatht.Proxy.Address.{SocksAddress, socket, domain}
use yayatht.Proxy.Datagram.{
  Error, ok, err, address_len, write_address, encode_at, encode, decode_address, with_payload,
  decode,
}

-- An address as the program builds it: the octets of its kind, a name of 1 to 255 bytes, a 16-bit port.
abbrev pub IsEncodable : SocksAddress → Type 0
IsEncodable (socket (v4 octets port)) = (length octets ≡ 4) × IsU16 port
IsEncodable (socket (v6 octets port)) = (length octets ≡ 16) × IsU16 port
IsEncodable (domain name port) = (0 < length name) × (length name ≤ u8_max) × IsU16 port

-- The length of the header.
abbrev pub header_len : SocksAddress → ℕ
header_len (socket (v4 octets port)) = 10
header_len (socket (v6 octets port)) = 22
header_len (domain name port) = 3 + (1 + 1 + length name + 2)

-- The header as bytes, in two parts around the end of the address.
abbrev prefix : SocksAddress → List ℕ
prefix (socket (v4 octets port)) = 0 ∷ 0 ∷ 0 ∷ 1 ∷ octets
prefix (socket (v6 octets port)) = 0 ∷ 0 ∷ 0 ∷ 4 ∷ octets
prefix (domain name port) = 0 ∷ 0 ∷ 0 ∷ 3 ∷ u8 (length name) ∷ name

abbrev port_of : SocksAddress → ℕ
port_of (socket (v4 octets port)) = port
port_of (socket (v6 octets port)) = port
port_of (domain name port) = port

abbrev frame : SocksAddress → List ℕ → List ℕ
frame dst payload = prefix dst ++ (bytes16 (port_of dst) ++ payload)

decode-frame :
    (dst : SocksAddress) (payload : List ℕ)
    → IsEncodable dst
    → decode (frame dst payload) ≡ ok (record { destination = dst; payload = payload })
unfolding decode decode_address with_payload
decode-frame (socket (v4 octets port)) payload (n, p) =
    let dst = socket (v4 octets port) in
    let total = length-append octets (bytes16 port ++ payload) in
    let long : ltb (length (frame dst payload)) 10 ≡ false = ground (arith, total) in
    let long4 : ltb (length (frame dst payload)) 4 ≡ false = ground (arith, total) in
    rw
      (
        long4,
        long,
        take-append 4 octets (bytes16 port ++ payload) (sym n),
        word16-after (prefix dst) payload 8 port (omega (arith, n)) p,
        drop-after (prefix dst) payload 8 10 port (omega (arith, n)) refl,
      )
      refl
decode-frame (socket (v6 octets port)) payload (n, p) =
    let dst = socket (v6 octets port) in
    let total = length-append octets (bytes16 port ++ payload) in
    let long : ltb (length (frame dst payload)) 22 ≡ false = ground (arith, total) in
    let long4 : ltb (length (frame dst payload)) 4 ≡ false = ground (arith, total) in
    rw
      (
        long4,
        long,
        take-append 16 octets (bytes16 port ++ payload) (sym n),
        word16-after (prefix dst) payload 20 port (omega (arith, n)) p,
        drop-after (prefix dst) payload 20 22 port (omega (arith, n)) refl,
      )
      refl
decode-frame (domain name port) payload (pos, n, p) =
    let dst = domain name port in
    let end = 5 + u8 (length name) in
    let total = length-append name (bytes16 port ++ payload) in
    let long4 : ltb (length (frame dst payload)) 4 ≡ false = ground (arith, total) in
    let long5 : ltb (length (frame dst payload)) 5 ≡ false = ground (arith, total) in
    let long : ltb (length (frame dst payload)) (end + 2) ≡ false = ground (arith, total) in
    let named : (u8 (length name) == 0) ≡ false = ground arith in
    rw
      (
        long4,
        long5,
        named,
        long,
        take-append (end - 5) name (bytes16 port ++ payload) (omega arith),
        word16-after (prefix dst) payload end port (omega arith) p,
        drop-after (prefix dst) payload end (end + 2) port (omega arith) refl,
      )
      refl

splice_block :
    (out a b c : List ℕ) (n m : ℕ)
    → n ≡ length a
    → m ≡ n + length b
    → splice (splice (splice out 0 a) n b) m c ≡ splice out 0 (a ++ (b ++ c))
splice_block out a b c n m e f =
    splice-splice (splice out 0 a) n b c m f ∙ splice-splice out 0 a (b ++ c) n (omega arith)

-- The address and the payload, written one after the other.
written_lem :
    (out : List ℕ) (dst : SocksAddress) (payload : List ℕ)
    → IsEncodable dst
    → let w = write_address (splice out 0 (replicate 3 0)) 3 dst in
      splice w.0 w.1 payload ≡ splice out 0 (frame dst payload)
unfolding write_address
written_lem out (socket (v4 octets port)) payload (n, p) =
    rw
      (
        set-splice,
        splice-splice out 0 (0 ∷ 0 ∷ 0 ∷ []) (1 ∷ []) 3 refl,
        splice-splice out 0 (0 ∷ 0 ∷ 0 ∷ 1 ∷ []) octets 4 refl,
      )
      (splice_block out (0 ∷ 0 ∷ 0 ∷ 1 ∷ octets) (bytes16 port) payload 8 10 (omega (arith, n))
        refl)
written_lem out (socket (v6 octets port)) payload (n, p) =
    rw
      (
        set-splice,
        splice-splice out 0 (0 ∷ 0 ∷ 0 ∷ []) (4 ∷ []) 3 refl,
        splice-splice out 0 (0 ∷ 0 ∷ 0 ∷ 4 ∷ []) octets 4 refl,
      )
      (splice_block out (0 ∷ 0 ∷ 0 ∷ 4 ∷ octets) (bytes16 port) payload 20 22 (omega (arith, n))
        refl)
written_lem out (domain name port) payload (pos, n, p) =
    let size = u8 (length name) in
    rw
      (
        set-splice,
        set-splice,
        splice-splice out 0 (0 ∷ 0 ∷ 0 ∷ []) (3 ∷ []) 3 refl,
        splice-splice out 0 (0 ∷ 0 ∷ 0 ∷ 3 ∷ []) (size ∷ []) 4 refl,
        splice-splice out 0 (0 ∷ 0 ∷ 0 ∷ 3 ∷ size ∷ []) name 5 refl,
      )
      (splice_block out (0 ∷ 0 ∷ 0 ∷ 3 ∷ size ∷ name) (bytes16 port) payload (5 + length name)
        (5 + length name + 2) (omega arith) refl)

frame_len :
    (dst : SocksAddress) (payload : List ℕ)
    → IsEncodable dst
    → length (frame dst payload) ≡ header_len dst + length payload
frame_len (socket (v4 octets port)) payload (n, p) =
    omega (arith, n, length-append octets (bytes16 port ++ payload))
frame_len (socket (v6 octets port)) payload (n, p) =
    omega (arith, n, length-append octets (bytes16 port ++ payload))
frame_len (domain name port) payload (pos, n, p) =
    omega (arith, length-append name (bytes16 port ++ payload))

address_len-header :
    (dst : SocksAddress)
    → IsEncodable dst
    → (n : ℕ) × (address_len dst ≡ some n) × (3 + n ≡ header_len dst)
unfolding address_len
address_len-header (socket (v4 octets port)) h = (7, refl, refl)
address_len-header (socket (v6 octets port)) h = (19, refl, refl)
address_len-header (domain name port) (pos, n, p) = (1 + 1 + length name + 2, ground arith, refl)

-- An address that can be encoded and a payload, encoded into a buffer with room for both, give a number
-- of bytes, and these bytes decode to the address and the payload.
pub decode-encode :
    (out : List ℕ) (dst : SocksAddress) (payload : List ℕ)
    → IsEncodable dst
    → header_len dst + length payload ≤ length out
    → (total : ℕ) × (written : List ℕ) × (encode out dst payload ≡ ok (total, written))
      × (total ≡ header_len dst + length payload)
      × (decode (take total written) ≡ ok (record { destination = dst; payload = payload }))
unfolding encode encode_at
decode-encode out dst payload v h =
    let (n, e, f) = address_len-header dst v in
    let w = write_address (splice out 0 (replicate 3 0)) 3 dst in
    let size = frame_len dst payload v in
    let written : splice w.0 w.1 payload
        ≡ frame dst payload ++ drop (length (frame dst payload)) out =
      written_lem out dst payload v ∙ splice-zero out (frame dst payload) (omega (arith, size)) in
    let room : ltb (length out) (3 + n + length payload) ≡ false = ground (arith, f) in
    (
      3 + n + length payload,
      splice w.0 w.1 payload,
      rw (e, room) refl,
      omega (arith, f),
      rw
          (
            written,
            take-append (3 + n + length payload) (frame dst payload)
                (drop (length (frame dst payload)) out) (omega (arith, size, f)),
          )
          (decode-frame dst payload v),
    )

-- A domain is refused exactly when its name is empty or longer than 255 bytes.
pub encode-refused_iff :
    (out payload name : List ℕ) (port : ℕ)
    → (encode out (domain name port) payload ≡ err Error.invalid_domain)
      ↔ ((length name ≡ 0) ⊎ (255 < length name))
unfolding encode encode_at address_len
encode-refused_iff out payload name port = ground arith
