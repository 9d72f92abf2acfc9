-- ===== src/Tcp/Timer.antt =====
-- `TimerWheel` of crates/tcp-adapter/src/timer.rs. Instants are nanoseconds; a failed assertion or
-- `expect` is `none`. A slot is a remainder by the number of buckets, so it is in range in a wheel that
-- `new` made; the head of a bucket is the front of its deque.
mod Tests
pub mod Drain
pub mod Rests
pub mod Expiry
pub mod Start
use yayatht.Base.{ℕ, zero, suc, ◌+◌, ◌-◌, ◌*◌, ◌/◌, ◌%◌, ◌^◌, ◌≤◌, ◌<◌, min, max, bit_and, bit_or}
use yayatht.Base.{
  ◌≡◌, refl, sym, ap, subst, ◌∙◌, ◌≢◌, ◌↔◌, ◌⊎◌, inl, inr, Bool, true, false, not, ◌&&◌, ◌||◌,
}
use yayatht.Base.{
  Option, none, some, List, [], ◌∷◌, ◌++◌, map, arith, ltb, leb, ◌==◌, if◌then◌else◌, ==_iff,
  Bool-cases, Option-cases, is_some, if-cases,
}
use yayatht.Base.{
  length, get_elem?, get_or, set, take, drop, replicate, slice, splice, All, length-append,
  length-set, get_elem?-set_self, get_elem?-set_ne, get_elem?-lt, length-take, length-drop,
  length-replicate, length-splice, splice-nil, splice-splice, splice-zero, take-append, drop-append,
  take_all, drop-drop, splice_over, take-append_more, append_assoc, set-splice, drop-after,
  word16-after, byte_at, word16, append_nil, drop-append_less, take-drop,
}
use yayatht.Base.{
  lookup, remove, insert, lookup-remove_self, lookup-remove_ne, lookup-insert_self,
  lookup-insert_ne, length-remove-le, length-remove-lt, remove_absent, Distinct, remove-Distinct,
  insert-Distinct, length-remove, length-insert, length-insert-le, remove-insert_new, ℕ_discrete,
  ◌>>=◌, >>=-eq-some,
}
use yayatht.Base.{
  u8_max, u16_max, u32_max, u64_max, IsU8, IsU16, IsU32, u8, u16, u32, u64, add32, sub32, ◌<<<◌,
  ◌>>>◌, be16, bytes16, be32, bytes32, be16-bytes16, be32-bytes32,
}
use yayatht.Base.{
  zero-bit_or, bit_or-zero, bit_and-zero, bit_or_cut, bit_and_cut, bit_or_fields, bit_and_mask,
  bit_or_insert, bit_and_field,
}

pub data TimerKind : Type 0 where
  retransmit connects idle time_wait zero_window_probe : TimerKind

pub record TimerEntry {ℓ} (T : Type ℓ) : Type ℓ where
  pub key : T
  pub kind : TimerKind
  pub deadline : ℕ
  pub sequence : ℕ

pub record TimerWheel {ℓ} (T : Type ℓ) : Type ℓ where
  pub epoch : ℕ
  pub tick : ℕ
  pub cursor : ℕ
  pub buckets : List (List (TimerEntry T))

module _ {ℓ} {T : Type ℓ} where
  unfoldable pub new : ℕ → ℕ → ℕ → Option (TimerWheel T)
  new epoch tick buckets =
      if ltb 0 buckets
      then some (record { epoch = epoch; tick = tick; cursor = 0; buckets = replicate buckets [] })
      else none

  -- The number of the tick of an instant, `as u64`.
  abbrev pub ticks : TimerWheel T → ℕ → ℕ
  ticks w instant = (instant - w.epoch) / max w.tick 1 % 2 ^ 64

  abbrev pub slot_of : TimerWheel T → TimerEntry T → ℕ
  slot_of w entry = ticks w entry.deadline % length w.buckets

  abbrev pub schedule : TimerWheel T → TimerEntry T → TimerWheel T
  schedule w entry =
      let slot = slot_of w entry in
      record w { buckets = set w.buckets slot (get_or w.buckets slot [] ++ entry ∷ []) }

  -- One round of the inner loop, for the bucket that it pops.
  unfoldable pub drain_next :
      TimerWheel T
      → ℕ
      → ℕ
      → List (TimerEntry T)
      → List (TimerEntry T)
      → Option (TimerWheel T × List (TimerEntry T))
  drain_next w slot now out [] = none
  drain_next w slot now out (entry ∷ bucket) =
      let popped = record w { buckets = set w.buckets slot bucket } in
      if leb entry.deadline now
      then some (popped, out ++ entry ∷ [])
      else some (schedule popped entry, out)

  unfoldable pub drain :
      ℕ → TimerWheel T → ℕ → ℕ → List (TimerEntry T) → Option (TimerWheel T × List (TimerEntry T))
  unfolding drain_next
  drain zero w slot now out = some (w, out)
  drain (suc count) w slot now out =
      drain_next w slot now out (get_or w.buckets slot [])
      >>= (λ (w', out'). drain count w' slot now out')

  -- The outer loop, with the rounds left until the cursor passes the target.
  unfoldable pub expire_from :
      ℕ → TimerWheel T → ℕ → List (TimerEntry T) → Option (TimerWheel T × List (TimerEntry T))
  unfolding drain
  expire_from zero w now out = some (w, out)
  expire_from (suc rounds) w now out =
      let slot = w.cursor % length w.buckets in
      drain (length (get_or w.buckets slot [])) w slot now out >>= (λ (w', out').
        expire_from rounds (record w' { cursor = min (w'.cursor + 1) u64_max }) now out')

  unfoldable pub expire :
      TimerWheel T → ℕ → List (TimerEntry T) → Option (TimerWheel T × List (TimerEntry T))
  unfolding expire_from
  expire w now out = expire_from (ticks w now + 1 - w.cursor) w now out
