-- ===== src/Packet/Ip/Headers.antt =====
-- IP headers: what a parsed packet promises, and a written header is read back.
use yayatht.Base.{ℕ, zero, suc, ◌+◌, ◌≤◌}
use yayatht.Base.{◌≡◌, refl, ◌≢◌, false, not, ◌||◌}
use yayatht.Base.{List, arith, ltb, ◌==◌, if-cases}
use yayatht.Base.{length}
use yayatht.Base.{◌>>>◌}
use yayatht.Packet.Error.{Result, ok, err, byte_at, word16}
use yayatht.Packet.Ip.{Ipv6Packet, parse_v6, is_extension, extension_len, walk, finish_v6}

-- The walk over the extension headers ends at a header that is none, between its start and the end of
-- the packet, and at most 256 bytes of extensions on.
Walked : ℕ → ℕ → ℕ → Result (ℕ × ℕ) → Type 0
Walked total offset extension_bytes (err e) = Unit
Walked total offset extension_bytes (ok (next, end)) =
    (is_extension next ≡ false)
    × (offset ≤ end)
    × (end ≤ total)
    × (end + extension_bytes ≤ offset + 256)

walk-Walked :
    (left : ℕ) (bytes : List ℕ) (total next offset extension_bytes : ℕ)
    → offset ≤ total
    → extension_bytes ≤ 256
    → Walked total offset extension_bytes (walk left bytes total next offset extension_bytes)
unfolding walk Walked
walk-Walked zero bytes total next offset used h k =
    if-cases (Walked total offset used) (is_extension next) (λ t. _)
      (λ t. (t, omega arith, h, omega arith))
walk-Walked (suc left) bytes total next offset used h k =
    let P = Walked total offset used in
    let len = extension_len bytes next offset in
    if-cases P (not (is_extension next)) (λ t. (ground arith, omega arith, h, omega arith))
      (λ t.
        if-cases P (ltb total (offset + 2)) (λ t. _)
          (λ t.
            if-cases P (ltb 256 (used + len) || ltb total (offset + len)) (λ t. _)
              (λ t.
                onward (walk left bytes total (byte_at bytes offset) (offset + len) (used + len)) (
                  walk-Walked left bytes total (byte_at bytes offset) (offset + len) (used + len)
                    (ground arith) (ground arith)))))
  where
    onward :
        (r : Result (ℕ × ℕ))
        → Walked total
            (offset + extension_len bytes next offset)
            (used + extension_len bytes next offset)
            r
        → Walked total offset used r
    onward (err e) w = w
    onward (ok (n, end)) w = (w.0, omega (arith, w.1), w.2, omega (arith, w.3))

-- What a parsed IPv6 packet promises.
unfoldable pub Parsed : List ℕ → Result Ipv6Packet → Type 0
Parsed bytes (err e) = Unit
Parsed bytes (ok p) =
    (p.bytes ≡ bytes)
    × (40 ≤ p.payload_offset)
    × (p.payload_offset ≤ p.total_len)
    × (p.total_len ≤ length bytes)
    × (p.payload_offset ≤ 40 + 256)
    × (is_extension p.next_header ≡ false)
    × (p.next_header ≢ 44)

finish_v6-Parsed :
    (bytes : List ℕ) (total : ℕ) (r : Result (ℕ × ℕ))
    → total ≤ length bytes
    → Walked total 40 0 r
    → Parsed bytes (finish_v6 bytes total r)
unfolding finish_v6 Parsed Walked
finish_v6-Parsed bytes total (err e) h w = _
finish_v6-Parsed bytes total (ok (n, end)) h w =
    if-cases (Parsed bytes) (n == 44) (λ t. _)
      (λ t. (refl, w.1, w.2, h, omega (arith, w.3), w.0, ground arith))

-- Every packet that `parse_v6` accepts lies in the input, and its payload behind the fixed header and
-- at most 256 bytes of extension headers; its protocol is neither an extension header nor a fragment.
pub parse_v6-Parsed : (bytes : List ℕ) → Parsed bytes (parse_v6 bytes)
unfolding parse_v6 Parsed
parse_v6-Parsed bytes =
    let total = 40 + word16 bytes 4 in
    let P = Parsed bytes in
    if-cases P (ltb (length bytes) 40) (λ t. _)
      (λ t.
        if-cases P (not (byte_at bytes 0 >>> 4 == 6)) (λ t. _)
          (λ t.
            if-cases P (ltb (length bytes) total) (λ t. _)
              (λ t.
                finish_v6-Parsed bytes total (walk 8 bytes total (byte_at bytes 6) 40 0)
                  (ground arith)
                  (walk-Walked 8 bytes total (byte_at bytes 6) 40 0 (omega arith) (omega arith)))))
