-- ===== src/Packet/Tcp/RoundTrip.antt =====
-- A written TCP header is read back.
use yayatht.Base.{ℕ, ◌+◌, ◌*◌, ◌/◌, ◌%◌, ◌≤◌}
use yayatht.Base.{◌≡◌, refl, ap, false}
use yayatht.Base.{Option, none, some, List, [], ◌∷◌, ◌++◌, arith, ltb}
use yayatht.Base.{length, drop, replicate, splice-nil, splice-zero}
use yayatht.Base.{IsU16, IsU32, bytes16, bytes32}
use yayatht.Packet.Error.{ok}
use yayatht.Packet.Tcp.{
  TcpFlags, TcpSegment, TcpHeaderSpec, parse, source_port, destination_port, sequence,
  acknowledgment, flags_of, flags, flags_byte, window, payload, find, find_option, first_word,
  first_byte, mss, window_scale, write_header, write_mss, write_window_scale, option_room,
}

-- The five flags are read back: all 32 cases compute.
flags_of-flags_byte : (f : TcpFlags) → flags_of (flags_byte f) ≡ f
unfolding flags_of flags_byte
flags_of-flags_byte f = ground arith

abbrev pub AllOption : (ℕ → Type 0) → Option ℕ → Type 0
AllOption P none = Unit
AllOption P (some a) = P a

-- The fields of a header are words of their widths.
pub record IsHeader (spec : TcpHeaderSpec) : Type 0 where
  pub source_word : IsU16 spec.spec_source_port
  pub destination_word : IsU16 spec.spec_destination_port
  pub sequence_word : IsU32 spec.spec_sequence
  pub acknowledgment_word : IsU32 spec.spec_acknowledgment
  pub window_word : IsU16 spec.spec_window
  pub mss_word : AllOption IsU16 spec.spec_mss

abbrev pub header_len_of : TcpHeaderSpec → ℕ
header_len_of spec = 20 + option_room spec.spec_mss + option_room spec.spec_window_scale

abbrev options_of : Option ℕ → Option ℕ → List ℕ
options_of none none = []
options_of (some mss) none = 2 ∷ 4 ∷ bytes16 mss
options_of none (some shift) = 1 ∷ 3 ∷ 3 ∷ shift ∷ []
options_of (some mss) (some shift) =
    2 ∷ 4 ∷ (mss / 256 % 256) ∷ (mss % 256) ∷ 1 ∷ 3 ∷ 3 ∷ shift ∷ []

-- The header as bytes.
abbrev header_bytes : TcpHeaderSpec → List ℕ
header_bytes spec =
    bytes16 spec.spec_source_port
    ++ bytes16 spec.spec_destination_port
    ++ bytes32 spec.spec_sequence
    ++ bytes32 spec.spec_acknowledgment
    ++ (header_len_of spec * 4) ∷ flags_byte spec.spec_flags ∷ bytes16 spec.spec_window
    ++ 0 ∷ 0 ∷ 0 ∷ 0 ∷ options_of spec.spec_mss spec.spec_window_scale

abbrev with_options : TcpHeaderSpec → Option ℕ → Option ℕ → TcpHeaderSpec
with_options spec m w = record {
  spec_source_port = spec.spec_source_port;
  spec_destination_port = spec.spec_destination_port;
  spec_sequence = spec.spec_sequence;
  spec_acknowledgment = spec.spec_acknowledgment;
  spec_flags = spec.spec_flags;
  spec_window = spec.spec_window;
  spec_mss = m;
  spec_window_scale = w;
}

written_lem :
    (spec : TcpHeaderSpec) (out : List ℕ)
    → header_len_of spec ≤ length out
    → write_header out spec
      ≡ ok (header_len_of spec, header_bytes spec ++ drop (header_len_of spec) out)
unfolding write_header write_mss write_window_scale
written_lem spec out h = each spec.spec_mss spec.spec_window_scale h
  where
    fits : (n : ℕ) → n ≤ length out → ltb (length out) n ≡ false
    fits n h = ground arith

    each :
        (m w : Option ℕ)
        → header_len_of (with_options spec m w) ≤ length out
        → write_header out (with_options spec m w)
          ≡ ok (
            header_len_of (with_options spec m w),
            header_bytes (with_options spec m w)
                ++ drop (header_len_of (with_options spec m w)) out,
          )
    each none none h = rw (fits 20 h, splice-zero out (replicate 20 0) h) refl
    each (some m) none h =
        rw (fits 24 h, splice-zero out (replicate 24 0) h)
          (ap (λ t. ok (24, header_bytes (with_options spec (some m) none) ++ t))
            (splice-nil (drop 24 out) 0))
    each none (some w) h = rw (fits 24 h, splice-zero out (replicate 24 0) h) refl
    each (some m) (some w) h = rw (fits 28 h, splice-zero out (replicate 28 0) h) refl

-- What depends on which options there are.
options_lem :
    (spec : TcpHeaderSpec) (m w : Option ℕ) (rest : List ℕ)
    → AllOption IsU16 m
    → let bytes = header_bytes (with_options spec m w) ++ rest in
      let s : TcpSegment = record {
        bytes = bytes;
        header_len = header_len_of (with_options spec m w);
      } in
      (mss s ≡ m) × (window_scale s ≡ w) × (payload s ≡ rest) × (parse bytes ≡ ok s)
unfolding parse payload mss window_scale find_option find first_word first_byte
options_lem spec none none rest h = (refl, refl, refl, ground arith)
options_lem spec (some m) none rest h = (ap some (omega arith), refl, refl, ground arith)
options_lem spec none (some w) rest h = (refl, refl, refl, ground arith)
options_lem spec (some m) (some w) rest h = (ap some (omega arith), refl, refl, ground arith)

-- A header whose fields are words of their widths, written into a buffer with room for it, is parsed
-- as a segment with the same ports, numbers, flags, window and options, whose payload is what stood
-- behind the header.
pub parse-write_tcp_header :
    (spec : TcpHeaderSpec) (out : List ℕ)
    → IsHeader spec
    → header_len_of spec ≤ length out
    → (written : List ℕ) × (segment : TcpSegment) × (write_header out spec
        ≡ ok (header_len_of spec, written))
      × (parse written ≡ ok segment)
      × (source_port segment ≡ spec.spec_source_port)
      × (destination_port segment ≡ spec.spec_destination_port)
      × (sequence segment ≡ spec.spec_sequence)
      × (acknowledgment segment ≡ spec.spec_acknowledgment)
      × (flags segment ≡ spec.spec_flags)
      × (window segment ≡ spec.spec_window)
      × (mss segment ≡ spec.spec_mss)
      × (window_scale segment ≡ spec.spec_window_scale)
      × (payload segment ≡ drop (header_len_of spec) out)
unfolding source_port destination_port sequence acknowledgment flags window
parse-write_tcp_header spec out v h =
    let n = header_len_of spec in
    let written = header_bytes spec ++ drop n out in
    let o = options_lem spec spec.spec_mss spec.spec_window_scale (drop n out) v.mss_word in
    (
      written,
      record { bytes = written; header_len = n },
      written_lem spec out h,
      o.3,
      omega (arith, v.source_word),
      omega (arith, v.destination_word),
      omega (arith, v.sequence_word),
      omega (arith, v.acknowledgment_word),
      flags_of-flags_byte spec.spec_flags,
      omega (arith, v.window_word),
      o.0,
      o.1,
      o.2,
    )
