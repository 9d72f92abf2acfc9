-- ===== src/Packet/Tests.antt =====
-- Headers and checksums on concrete packets.
use yayatht.Base.{ℕ, zero, suc}
use yayatht.Base.{◌≡◌, refl, true, false}
use yayatht.Base.{some, List, [], ◌∷◌, ◌++◌, arith}
use yayatht.Base.{length, take, drop, replicate, splice, All}
use yayatht.Base.{IsU8, bytes16}
use yayatht.Packet.Error.{ok}
use yayatht.Packet.Checksum.{checksum, ipv4_transport}
use yayatht.Packet.Checksum.Transport.{IsAddress, IsSegment}
use yayatht.Packet.Tcp
use yayatht.Packet.Tcp.{
  TcpFlags, TcpSegment, TcpHeaderSpec, find, set_ipv4_partial_checksum, set_ipv6_partial_checksum,
}
use yayatht.Packet.Tcp.RoundTrip.{IsHeader, header_len_of, parse-write_tcp_header}
use yayatht.Packet.Tcp.Sums.{ipv4_transport-set_ipv4_checksum, ipv4_transport-partial}
use yayatht.Packet.Udp
use yayatht.Packet.Udp.Laws.{parse-write_header}
use yayatht.Packet.Ip.{
  Ipv4Packet, parse_v4, parse_v6, source_v4, destination_v4, protocol, payload_v4,
  write_ipv4_header,
}
use yayatht.Packet.Ip.Headers.{Parsed, parse_v6-Parsed}
use yayatht.Packet.Ip.RoundTrip.{Octets, octets, ipv4_round_trip}
use yayatht.Packet.Vnet
use yayatht.Packet.Vnet.Laws.{IsVnet}

abbrev buffer : List ℕ
buffer = replicate 40 9

replicate-All : (n a : ℕ) → IsU8 a → All IsU8 (replicate n a)
replicate-All zero a h = _
replicate-All (suc n) a h = (h, replicate-All n a h)

buffer-All : All IsU8 buffer
buffer-All = replicate-All 40 9 (omega arith)

abbrev here : List ℕ
here = 10 ∷ 0 ∷ 0 ∷ 1 ∷ []

abbrev there : List ℕ
there = 10 ∷ 0 ∷ 0 ∷ 2 ∷ []

abbrev here6 : List ℕ
here6 = replicate 16 3

here-IsAddress : IsAddress 4 here
here-IsAddress = record {
  address_len = refl;
  address_bytes = (omega arith, (omega arith, (omega arith, (omega arith, _))));
}

there-IsAddress : IsAddress 4 there
there-IsAddress = record {
  address_len = refl;
  address_bytes = (omega arith, (omega arith, (omega arith, (omega arith, _))));
}

here6-IsAddress : IsAddress 16 here6
here6-IsAddress = record { address_len = refl; address_bytes = replicate-All 16 3 (omega arith) }

buffer-tcp : IsSegment buffer 16
buffer-tcp = record {
  segment_bytes = buffer-All;
  segment_len = omega arith;
  field_inside = omega arith;
}

buffer-udp : IsSegment buffer 6
buffer-udp = record {
  segment_bytes = buffer-All;
  segment_len = omega arith;
  field_inside = omega arith;
}

abbrev syn_header : TcpHeaderSpec
syn_header = record {
  spec_source_port = 5000;
  spec_destination_port = 443;
  spec_sequence = 4000000000;
  spec_acknowledgment = 77;
  spec_flags = record { fin = false; syn = true; rst = false; psh = false; ack = true };
  spec_window = 65535;
  spec_mss = some 1460;
  spec_window_scale = some 7;
}

syn_header-IsHeader : IsHeader syn_header
syn_header-IsHeader = record {
  source_word = omega arith;
  destination_word = omega arith;
  sequence_word = omega arith;
  acknowledgment_word = omega arith;
  window_word = omega arith;
  mss_word = omega arith;
}

abbrev octets_here : Octets
octets_here = record {
  first = 10;
  second = 0;
  third = 0;
  fourth = 1;
  first_byte = omega arith;
  second_byte = omega arith;
  third_byte = omega arith;
  fourth_byte = omega arith;
}

abbrev vnet : Vnet.VnetHeader
vnet = record {
  flags = 1;
  gso_type = 1;
  hdr_len = 54;
  gso_size = 1460;
  csum_start = 34;
  csum_offset = 16;
}

vnet-IsVnet : IsVnet vnet
vnet-IsVnet = record {
  hdr_len_word = omega arith;
  gso_size_word = omega arith;
  csum_start_word = omega arith;
  csum_offset_word = omega arith;
}

ipv4_transport-set_ipv4_checksum_example :
    let tcp = buffer in
    let src = here in
    let dst = there in
    (out : List ℕ) × (Tcp.set_ipv4_checksum tcp src dst ≡ ok out)
    × (length out ≡ length tcp)
    × (ipv4_transport src dst 6 out ≡ 0)
ipv4_transport-set_ipv4_checksum_example =
    ipv4_transport-set_ipv4_checksum buffer here there buffer-tcp (omega arith) here-IsAddress
      there-IsAddress

ipv4_transport-partial_example :
    let tcp = buffer in
    let src = here in
    let dst = there in
    (out : List ℕ) × (set_ipv4_partial_checksum tcp src dst ≡ ok out)
    × (ipv4_transport src dst 6 (splice out 16 (bytes16 (checksum out))) ≡ 0)
ipv4_transport-partial_example =
    ipv4_transport-partial buffer here there buffer-tcp (omega arith) here-IsAddress there-IsAddress

parse-write_tcp_header_example :
    let spec = syn_header in
    let out = buffer in
    (written : List ℕ) × (segment : TcpSegment) × (Tcp.write_header out spec
      ≡ ok (header_len_of spec, written))
    × (Tcp.parse written ≡ ok segment)
    × (Tcp.source_port segment ≡ spec.spec_source_port)
    × (Tcp.destination_port segment ≡ spec.spec_destination_port)
    × (Tcp.sequence segment ≡ spec.spec_sequence)
    × (Tcp.acknowledgment segment ≡ spec.spec_acknowledgment)
    × (Tcp.flags segment ≡ spec.spec_flags)
    × (Tcp.window segment ≡ spec.spec_window)
    × (Tcp.mss segment ≡ spec.spec_mss)
    × (Tcp.window_scale segment ≡ spec.spec_window_scale)
    × (Tcp.payload segment ≡ drop (header_len_of spec) out)
parse-write_tcp_header_example =
    parse-write_tcp_header syn_header buffer syn_header-IsHeader (omega arith)

parse-write_header_example :
    let out = buffer in
    let src : ℕ = 53 in
    let dst : ℕ = 5000 in
    let n : ℕ = 12 in
    (written datagram : List ℕ) × (Udp.write_header out src dst n ≡ ok (8, written))
    × (Udp.parse written ≡ ok datagram)
    × (Udp.source_port datagram ≡ src)
    × (Udp.destination_port datagram ≡ dst)
    × (Udp.payload datagram ≡ take n (drop 8 out))
    × (Udp.checksum_field datagram ≡ 0)
parse-write_header_example =
    parse-write_header buffer 53 5000 12 (omega arith) (omega arith) (omega arith) (omega arith)

ipv4_round_trip_example :
    let out = buffer in
    let src = octets_here in
    let dst = octets_here in
    let proto : ℕ = 6 in
    let n : ℕ = 20 in
    let id : ℕ = 3 in
    (written : List ℕ) × (packet : Ipv4Packet) × (write_ipv4_header out
        (octets src)
        (octets dst)
        proto
        n
        id
      ≡ ok (20, written))
    × (parse_v4 written ≡ ok packet)
    × (source_v4 packet ≡ octets src)
    × (destination_v4 packet ≡ octets dst)
    × (protocol packet ≡ proto)
    × (payload_v4 packet ≡ take n (drop 20 out))
ipv4_round_trip_example =
    ipv4_round_trip buffer octets_here octets_here 6 20 3 (omega arith) (omega arith) (omega arith)

parse_v6-Parsed_example :
    let bytes : List ℕ = 0x60 ∷ replicate 5 0 ++ 59 ∷ replicate 33 1 in
    Parsed bytes (parse_v6 bytes)
parse_v6-Parsed_example = parse_v6-Parsed (0x60 ∷ replicate 5 0 ++ 59 ∷ replicate 33 1)
