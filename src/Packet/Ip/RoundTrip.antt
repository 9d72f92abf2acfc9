-- ===== src/Packet/Ip/RoundTrip.antt =====
-- A written IPv4 header is accepted, its checksum included, and read back.
use yayatht.Base.{ℕ, ◌+◌, ◌-◌, ◌/◌, ◌%◌, ◌≤◌}
use yayatht.Base.{◌≡◌, refl, ap, false, ◌||◌}
use yayatht.Base.{List, [], ◌∷◌, ◌++◌, arith, ltb}
use yayatht.Base.{length, take, drop, replicate, splice, All, length-drop, splice-nil, splice-zero}
use yayatht.Base.{u16_max, IsU8, bytes16}
use yayatht.Packet.Error.{ok, word16}
use yayatht.Packet.Checksum.{checksum}
use yayatht.Packet.Checksum.Total.{words_total-le, word_at}
use yayatht.Packet.Checksum.Verify.{ZeroField, fold-filled}
use yayatht.Packet.Ip.{
  Ipv4Packet, parse_v4, source_v4, destination_v4, protocol, payload_v4, write_ipv4_header,
}

-- An IPv4 address of four octets.
pub record Octets : Type 0 where
  pub first : ℕ
  pub second : ℕ
  pub third : ℕ
  pub fourth : ℕ
  pub first_byte : IsU8 first
  pub second_byte : IsU8 second
  pub third_byte : IsU8 third
  pub fourth_byte : IsU8 fourth

abbrev pub octets : Octets → List ℕ
octets a = a.first ∷ a.second ∷ a.third ∷ a.fourth ∷ []

-- The header with a checksum field of zero.
abbrev blank : Octets → Octets → ℕ → ℕ → ℕ → List ℕ
blank src dst proto total id =
    0x45
    ∷ 0
    ∷ (total / 256 % 256)
    ∷ (total % 256)
    ∷ (id / 256 % 256)
    ∷ (id % 256)
    ∷ 0x40
    ∷ 0
    ∷ 64
    ∷ proto
    ∷ 0
    ∷ 0
    ∷ (octets src ++ octets dst)

blank-ZeroField :
    (src dst : Octets) (proto total id : ℕ)
    → IsU8 proto
    → ZeroField 0 (blank src dst proto total id) 10 5
unfolding word_at
blank-ZeroField src dst proto total id h = record {
  even = refl;
  inside = omega arith;
  zero_word = refl;
  room = omega (arith, words_total-le (blank src dst proto total id) bytes);
}
  where
    bytes : All IsU8 (blank src dst proto total id)
    bytes = (
      omega arith,
      (
        omega arith,
        (
          omega arith,
          (
            omega arith,
            (
              omega arith,
              (
                omega arith,
                (
                  omega arith,
                  (
                    omega arith,
                    (
                      omega arith,
                      (
                        h,
                        (
                          omega arith,
                          (
                            omega arith,
                            (
                              src.first_byte,
                              (
                                src.second_byte,
                                (
                                  src.third_byte,
                                  (
                                    src.fourth_byte,
                                    (
                                      dst.first_byte,
                                      (dst.second_byte, (dst.third_byte, (dst.fourth_byte, _))),
                                    ),
                                  ),
                                ),
                              ),
                            ),
                          ),
                        ),
                      ),
                    ),
                  ),
                ),
              ),
            ),
          ),
        ),
      ),
    )

blank-verified :
    (src dst : Octets) (proto total id : ℕ)
    → IsU8 proto
    → let head = blank src dst proto total id in
      checksum (splice head 10 (bytes16 (checksum head))) ≡ 0
unfolding checksum
blank-verified src dst proto total id h =
    fold-filled 0 (blank src dst proto total id) 10 5 (blank-ZeroField src dst proto total id h)

-- A header written before a payload of n bytes, which fit the buffer and the length field, is accepted
-- by `parse_v4`, its checksum included, with the same addresses and protocol and the payload that
-- stood behind the header, cut to n bytes.
pub ipv4_round_trip :
    (out : List ℕ) (src dst : Octets) (proto n id : ℕ)
    → IsU8 proto
    → 20 + n ≤ length out
    → 20 + n ≤ u16_max
    → (written : List ℕ) × (packet : Ipv4Packet) × (write_ipv4_header out
          (octets src)
          (octets dst)
          proto
          n
          id
        ≡ ok (20, written))
      × (parse_v4 written ≡ ok packet)
      × (source_v4 packet ≡ octets src)
      × (destination_v4 packet ≡ octets dst)
      × (protocol packet ≡ proto)
      × (payload_v4 packet ≡ take n (drop 20 out))
unfolding write_ipv4_header parse_v4 source_v4 destination_v4 protocol payload_v4
ipv4_round_trip out src dst proto n id hp h w =
    let total = 20 + n in
    let head = blank src dst proto total id in
    let filled = splice head 10 (bytes16 (checksum head)) in
    let sum : checksum filled ≡ 0 = blank-verified src dst proto total id hp in
    let len : word16 filled 2 ≡ 20 + n = omega (arith, w) in
    let rest = length-drop 20 out in
    let short : ltb (length out) 20 || ltb u16_max total ≡ false = ground arith in
    (
      filled ++ drop 20 out,
      record { bytes = filled ++ drop 20 out; header_len = 20; total_len = word16 filled 2 },
      rw (short, splice-zero out (replicate 20 0) (omega arith))
          (ap (λ t. ok (20, filled ++ t)) (splice-nil (drop 20 out) 0)),
      ground (arith, sum, len, rest),
      refl,
      refl,
      refl,
      ap (λ k. take k (drop 20 out)) {x = word16 filled 2 - 20} (omega (arith, len)),
    )
