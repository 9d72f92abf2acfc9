-- ===== src/Reactor/Pending.antt =====
-- `PendingSocketQueue` of crates/dataplane/src/reactor.rs: the bytes that wait for the upstream socket,
-- in the chunks that they came in. A panic (`bytes` below zero) is `none`.
pub mod Stream
use yayatht.Base.{ℕ, zero, suc, ◌+◌, ◌-◌, ◌*◌, ◌/◌, ◌%◌, ◌^◌, ◌≤◌, ◌<◌, min, max, bit_and, bit_or}
use yayatht.Base.{
  ◌≡◌, refl, sym, ap, subst, ◌∙◌, ◌≢◌, ◌↔◌, ◌⊎◌, inl, inr, Bool, true, false, not, ◌&&◌, ◌||◌,
}
use yayatht.Base.{
  Option, none, some, List, [], ◌∷◌, ◌++◌, map, arith, ltb, leb, ◌==◌, if◌then◌else◌, ==_iff,
  Bool-cases, Option-cases, is_some, if-cases,
}
use yayatht.Base.{
  length, get_elem?, get_or, set, take, drop, replicate, slice, splice, All, length-append,
  length-set, get_elem?-set_self, get_elem?-set_ne, get_elem?-lt, length-take, length-drop,
  length-replicate, length-splice, splice-nil, splice-splice, splice-zero, take-append, drop-append,
  take_all, drop-drop, splice_over, take-append_more, append_assoc, set-splice, drop-after,
  word16-after, byte_at, word16,
}
use yayatht.Base.{
  lookup, remove, insert, lookup-remove_self, lookup-remove_ne, lookup-insert_self,
  lookup-insert_ne, length-remove-le, length-remove-lt, remove_absent, Distinct, remove-Distinct,
  insert-Distinct, length-remove, length-insert, length-insert-le, remove-insert_new, ℕ_discrete,
  ◌>>=◌, >>=-eq-some,
}
use yayatht.Base.{
  u8_max, u16_max, u32_max, u64_max, IsU8, IsU16, IsU32, u8, u16, u32, u64, add32, sub32, ◌<<<◌,
  ◌>>>◌, be16, bytes16, be32, bytes32, be16-bytes16, be32-bytes32,
}
use yayatht.Base.{
  zero-bit_or, bit_or-zero, bit_and-zero, bit_or_cut, bit_and_cut, bit_or_fields, bit_and_mask,
  bit_or_insert, bit_and_field,
}

pub record PendingSocketQueue : Type 0 where
  pub chunks : List (List ℕ)
  pub bytes : ℕ
  pub limit : ℕ

abbrev pub new : ℕ → PendingSocketQueue
new limit = record { chunks = []; bytes = 0; limit = limit }

abbrev pub remaining : PendingSocketQueue → ℕ
remaining q = q.limit - q.bytes

-- `none` is the error.
unfoldable pub push : PendingSocketQueue → List ℕ → Option PendingSocketQueue
push q bytes =
    if ltb (remaining q) (length bytes)
    then none
    else if length bytes == 0
    then some q
    else some (record q { chunks = q.chunks ++ bytes ∷ []; bytes = q.bytes + length bytes })

abbrev pub front_of : List (List ℕ) → Option (List ℕ)
front_of [] = none
front_of (chunk ∷ chunks) = some chunk

abbrev pub front : PendingSocketQueue → Option (List ℕ)
front q = front_of q.chunks

-- The front chunk, `consumed` bytes of it drained.
unfoldable pub consume_front :
    PendingSocketQueue → List ℕ → List (List ℕ) → ℕ → Option (ℕ × PendingSocketQueue)
consume_front q chunk chunks consumed =
    let left = drop consumed chunk in
    if ltb q.bytes consumed
    then none
    else some (
      consumed,
      record q {
        chunks = if length left == 0 then chunks else left ∷ chunks;
        bytes = q.bytes - consumed;
      },
    )

unfoldable pub consume_from :
    PendingSocketQueue → List (List ℕ) → ℕ → Option (ℕ × PendingSocketQueue)
unfolding consume_front
consume_from q [] len = some (0, q)
consume_from q (chunk ∷ chunks) len = consume_front q chunk chunks (min len (length chunk))

unfoldable pub consume : PendingSocketQueue → ℕ → Option (ℕ × PendingSocketQueue)
unfolding consume_from
consume q len = consume_from q q.chunks len

abbrev pub is_empty : PendingSocketQueue → Bool
is_empty q = q.bytes == 0

abbrev pub len : PendingSocketQueue → ℕ
len q = q.bytes
