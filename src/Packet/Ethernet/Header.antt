-- ===== src/Packet/Ethernet/Header.antt =====
-- The Ethernet header: the ether types are a bijection with their numbers, and a written header is
-- read back.
use yayatht.Base.{ℕ, ◌≤◌}
use yayatht.Base.{◌≡◌, sym, ap, ◌∙◌}
use yayatht.Base.{List, ◌++◌, arith}
use yayatht.Base.{
  length, take, drop, splice, length-append, splice-splice, splice-zero, take-append, drop-append,
  append_assoc, word16-after,
}
use yayatht.Base.{IsU16, bytes16}
use yayatht.Packet.Error.{ok, word16}
use yayatht.Packet.Ethernet.{
  EtherType, from_raw, raw, parse, destination, source, ether_type, payload, write_header,
}

-- Every number is the number of the type it is read as.
pub raw-from_raw : (n : ℕ) → raw (from_raw n) ≡ n
unfolding raw from_raw
raw-from_raw n = ground arith

-- A type that `from_raw` gives: the three known types are not written as `other`.
abbrev pub IsCanonical : EtherType → Type 0
IsCanonical kind = from_raw (raw kind) ≡ kind

header_lem :
    (out dst src : List ℕ) (w : ℕ)
    → length dst ≡ 6
    → length src ≡ 6
    → 14 ≤ length out
    → splice (splice (splice out 0 dst) 6 src) 12 (bytes16 w)
      ≡ ((dst ++ src) ++ bytes16 w) ++ drop 14 out
header_lem out dst src w hd hs h =
    let n = length-append dst src in
    let m = length-append (dst ++ src) (bytes16 w) in
    splice_twice
    ∙ splice-splice out 0 (dst ++ src) (bytes16 w) 12 (omega arith)
    ∙ splice-zero out ((dst ++ src) ++ bytes16 w) (omega arith)
    ∙ ap (λ k. ((dst ++ src) ++ bytes16 w) ++ drop k out) {y = 14} (omega arith)
  where
    splice_twice :
        splice (splice (splice out 0 dst) 6 src) 12 (bytes16 w)
        ≡ splice (splice out 0 (dst ++ src)) 12 (bytes16 w)
    splice_twice = ap (λ xs. splice xs 12 (bytes16 w)) (splice-splice out 0 dst src 6 (omega arith))

-- A header written into a buffer with room for it is read back: the addresses, the type, and a payload
-- of what stood behind the header.
pub ethernet_round_trip :
    (out dst src : List ℕ) (kind : EtherType)
    → 14 ≤ length out
    → length dst ≡ 6
    → length src ≡ 6
    → IsCanonical kind
    → IsU16 (raw kind)
    → (frame : List ℕ) × (write_header out dst src kind ≡ ok frame)
      × (parse frame ≡ ok frame)
      × (destination frame ≡ dst)
      × (source frame ≡ src)
      × (ether_type frame ≡ kind)
      × (payload frame ≡ drop 14 out)
unfolding write_header parse destination source ether_type payload
ethernet_round_trip out dst src kind h hd hs c u =
    let type_bytes = bytes16 (raw kind) in
    let frame = ((dst ++ src) ++ type_bytes) ++ drop 14 out in
    let n = length-append dst src in
    let m = length-append (dst ++ src) type_bytes in
    let total = length-append ((dst ++ src) ++ type_bytes) (drop 14 out) in
    let tail = src ++ (type_bytes ++ drop 14 out) in
    let split : frame ≡ dst ++ tail =
      append_assoc (dst ++ src) type_bytes (drop 14 out)
      ∙ append_assoc dst src (type_bytes ++ drop 14 out) in
    (
      frame,
      ground (arith, header_lem out dst src (raw kind) hd hs h),
      ground (arith, total, m, n),
      ap (take 6) split ∙ take-append 6 dst tail (sym hd),
      ap (λ xs. take 6 (drop 6 xs)) split
          ∙ ap (take 6) (drop-append 6 dst tail (sym hd))
          ∙ take-append 6 src (type_bytes ++ drop 14 out) (sym hs),
      ap (λ xs. from_raw (word16 xs 12)) (append_assoc (dst ++ src) type_bytes (drop 14 out))
          ∙ ap from_raw (word16-after (dst ++ src) (drop 14 out) 12 (raw kind) (omega arith) u)
          ∙ c,
      drop-append 14 ((dst ++ src) ++ type_bytes) (drop 14 out) (omega arith),
    )
