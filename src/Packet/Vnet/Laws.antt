-- ===== src/Packet/Vnet/Laws.antt =====
-- A written virtio header is read back.
use yayatht.Base.{ℕ, ◌≤◌}
use yayatht.Base.{◌≡◌, refl, false}
use yayatht.Base.{List, [], ◌∷◌, ◌++◌, arith, ltb}
use yayatht.Base.{length, drop, splice-splice, splice-zero, set-splice}
use yayatht.Base.{IsU16}
use yayatht.Packet.Error.{ok}
use yayatht.Packet.Vnet.{VnetHeader, ne_bytes, parse, write}

-- The four 16-bit fields are words of their width.
pub record IsVnet (h : VnetHeader) : Type 0 where
  pub hdr_len_word : IsU16 h.hdr_len
  pub gso_size_word : IsU16 h.gso_size
  pub csum_start_word : IsU16 h.csum_start
  pub csum_offset_word : IsU16 h.csum_offset

abbrev header_bytes : VnetHeader → List ℕ
header_bytes h =
    h.flags
    ∷ h.gso_type
    ∷ (ne_bytes h.hdr_len ++ ne_bytes h.gso_size ++ ne_bytes h.csum_start ++ ne_bytes h.csum_offset)

written_lem :
    (h : VnetHeader) (out : List ℕ)
    → 10 ≤ length out
    → write h out ≡ ok (header_bytes h ++ drop 10 out)
unfolding write
written_lem h out n =
    let f = h.flags ∷ h.gso_type ∷ [] in
    let short : ltb (length out) 10 ≡ false = ground arith in
    rw
      (
        short,
        set-splice,
        set-splice,
        splice-splice out 0 (h.flags ∷ []) (h.gso_type ∷ []) 1 refl,
        splice-splice out 0 f (ne_bytes h.hdr_len) 2 refl,
        splice-splice out 0 (f ++ ne_bytes h.hdr_len) (ne_bytes h.gso_size) 4 refl,
        splice-splice out 0 (f ++ ne_bytes h.hdr_len ++ ne_bytes h.gso_size) (ne_bytes h.csum_start)
            6 refl,
        splice-splice out 0
            (f ++ ne_bytes h.hdr_len ++ ne_bytes h.gso_size ++ ne_bytes h.csum_start)
            (ne_bytes h.csum_offset) 8 refl,
        splice-zero out (header_bytes h) n,
      )
      refl

-- A header whose words fit 16 bits, written into a buffer with room for it, is parsed as itself, and
-- the bytes behind it stay.
pub parse-write :
    (h : VnetHeader) (out : List ℕ)
    → IsVnet h
    → 10 ≤ length out
    → (written : List ℕ) × (write h out ≡ ok written)
      × (parse written ≡ ok h)
      × (drop 10 written ≡ drop 10 out)
unfolding parse
parse-write h out v n = (
  header_bytes h ++ drop 10 out,
  written_lem h out n,
  ground (arith, v.hdr_len_word, v.gso_size_word, v.csum_start_word, v.csum_offset_word),
  refl,
)
