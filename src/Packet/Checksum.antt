-- ===== src/Packet/Checksum.antt =====
-- crates/packet/src/checksum.rs: the Internet checksum. The additions are those of `u32`, which wrap
-- in a release build.
pub mod Fold
pub mod Total
pub mod Verify
pub mod Transport
use yayatht.Base.{ℕ, zero, suc, ◌+◌, ◌-◌, ◌*◌, ◌/◌, ◌%◌, ◌^◌, ◌≤◌, ◌<◌, min, max, bit_and, bit_or}
use yayatht.Base.{
  ◌≡◌, refl, sym, ap, subst, ◌∙◌, ◌≢◌, ◌↔◌, ◌⊎◌, inl, inr, Bool, true, false, not, ◌&&◌, ◌||◌,
}
use yayatht.Base.{
  Option, none, some, List, [], ◌∷◌, ◌++◌, map, arith, ltb, leb, ◌==◌, if◌then◌else◌, ==_iff,
  Bool-cases, Option-cases, is_some,
}
use yayatht.Base.{
  length, get_elem?, get_or, set, take, drop, replicate, slice, splice, All, length-append,
  length-set, get_elem?-set_self, get_elem?-set_ne, get_elem?-lt, length-take, length-drop,
  length-replicate, length-splice, splice-nil, splice-splice, splice-zero, take-append, drop-append,
  take_all, drop-drop,
}
use yayatht.Base.{
  u8_max, u16_max, u32_max, u64_max, IsU8, IsU16, IsU32, u8, u16, u32, u64, add32, sub32, ◌<<<◌,
  ◌>>>◌, be16, bytes16, be32, bytes32, be16-bytes16, be32-bytes32,
}
use yayatht.Base.{
  zero-bit_or, bit_or-zero, bit_and-zero, bit_or_cut, bit_and_cut, bit_or_fields, bit_and_mask,
  bit_or_insert, bit_and_field,
}

unfoldable pub sum_words : ℕ → List ℕ → ℕ
sum_words sum [] = sum
sum_words sum (last ∷ []) = add32 sum (last <<< 8)
sum_words sum (hi ∷ lo ∷ rest) = sum_words (add32 sum (be16 hi lo)) rest

-- The loop of `fold_sum` with a number of rounds; three are enough for 32 bits.
pub fold_loop : ℕ → ℕ → ℕ
fold_loop zero sum = sum
fold_loop (suc rounds) sum =
    let more = fold_loop rounds (bit_and sum 0xffff + (sum >>> 16)) in
    if not (sum >>> 16 == 0) then more else sum

unfoldable pub fold_sum : ℕ → ℕ
unfolding fold_loop
fold_sum sum = u16 (fold_loop 3 sum)

-- `!` on `u16`.
unfoldable pub fold : ℕ → ℕ
unfolding fold_sum
fold sum = u16_max - fold_sum sum

unfoldable pub checksum : List ℕ → ℕ
unfolding sum_words fold
checksum bytes = fold (sum_words 0 bytes)

-- The sum over the IPv4 pseudo header, which starts both functions on it.
unfoldable pub ipv4_seed : List ℕ → List ℕ → ℕ → ℕ → ℕ
unfolding sum_words
ipv4_seed src dst protocol length =
    add32 (add32 (sum_words (sum_words 0 src) dst) protocol) (u32 length)

unfoldable pub ipv4_transport : List ℕ → List ℕ → ℕ → List ℕ → ℕ
unfolding ipv4_seed sum_words fold
ipv4_transport src dst protocol bytes =
    fold (sum_words (ipv4_seed src dst protocol (length bytes)) bytes)

unfoldable pub ipv6_seed : List ℕ → List ℕ → ℕ → ℕ → ℕ
unfolding sum_words
ipv6_seed src dst protocol length =
    add32 (sum_words (sum_words (sum_words 0 src) dst) (bytes32 (u32 length))) protocol

unfoldable pub ipv6_transport : List ℕ → List ℕ → ℕ → List ℕ → ℕ
unfolding ipv6_seed sum_words fold
ipv6_transport src dst protocol bytes =
    fold (sum_words (ipv6_seed src dst protocol (length bytes)) bytes)

unfoldable pub ipv4_pseudo_header : List ℕ → List ℕ → ℕ → ℕ → ℕ
unfolding ipv4_seed fold_sum
ipv4_pseudo_header src dst protocol length = fold_sum (ipv4_seed src dst protocol length)

unfoldable pub ipv6_pseudo_header : List ℕ → List ℕ → ℕ → ℕ → ℕ
unfolding ipv6_seed fold_sum
ipv6_pseudo_header src dst protocol length = fold_sum (ipv6_seed src dst protocol length)
