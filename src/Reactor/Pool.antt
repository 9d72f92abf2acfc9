-- ===== src/Reactor/Pool.antt =====
-- `FrameBuffer` and `BufferPool` of crates/dataplane/src/buffer.rs, the fixed pools of frames that the
-- reactor writes to. A panic (an index out of range, a failed assertion) is `none`.
pub mod Frames
use yayatht.Base.{ℕ, zero, suc, ◌+◌, ◌-◌, ◌*◌, ◌/◌, ◌%◌, ◌^◌, ◌≤◌, ◌<◌, min, max, bit_and, bit_or}
use yayatht.Base.{
  ◌≡◌, refl, sym, ap, subst, ◌∙◌, ◌≢◌, ◌↔◌, ◌⊎◌, inl, inr, Bool, true, false, not, ◌&&◌, ◌||◌,
}
use yayatht.Base.{
  Option, none, some, List, [], ◌∷◌, ◌++◌, map, arith, ltb, leb, ◌==◌, if◌then◌else◌, ==_iff,
  Bool-cases, Option-cases, is_some, if-cases,
}
use yayatht.Base.{
  length, get_elem?, get_or, set, take, drop, replicate, slice, splice, All, length-append,
  length-set, get_elem?-set_self, get_elem?-set_ne, get_elem?-lt, length-take, length-drop,
  length-replicate, length-splice, splice-nil, splice-splice, splice-zero, take-append, drop-append,
  take_all, drop-drop, splice_over, take-append_more, append_assoc, set-splice, drop-after,
  word16-after, byte_at, word16, append_nil, drop-append_less, take-drop,
}
use yayatht.Base.{
  lookup, remove, insert, lookup-remove_self, lookup-remove_ne, lookup-insert_self,
  lookup-insert_ne, length-remove-le, length-remove-lt, remove_absent, Distinct, remove-Distinct,
  insert-Distinct, length-remove, length-insert, length-insert-le, remove-insert_new, ℕ_discrete,
  ◌>>=◌, >>=-eq-some,
}
use yayatht.Base.{
  u8_max, u16_max, u32_max, u64_max, IsU8, IsU16, IsU32, u8, u16, u32, u64, add32, sub32, ◌<<<◌,
  ◌>>>◌, be16, bytes16, be32, bytes32, be16-bytes16, be32-bytes32,
}
use yayatht.Base.{
  zero-bit_or, bit_or-zero, bit_and-zero, bit_or_cut, bit_and_cut, bit_or_fields, bit_and_mask,
  bit_or_insert, bit_and_field,
}
use yayatht.Flows.Table.{range_from}

pub record FrameBuffer : Type 0 where
  pub bytes : List ℕ
  pub len : ℕ

abbrev pub new_buffer : ℕ → FrameBuffer
new_buffer capacity = record { bytes = replicate capacity 0; len = 0 }

abbrev pub capacity : FrameBuffer → ℕ
capacity b = length b.bytes

-- The caller writes all of the frame through the slice that it is handed.
abbrev pub writable : FrameBuffer → List ℕ → FrameBuffer
writable b written = record { bytes = written; len = 0 }

unfoldable pub set_len : FrameBuffer → ℕ → Option FrameBuffer
set_len b len = if leb len (capacity b) then some (record b { len = len }) else none

abbrev pub bytes_of : FrameBuffer → List ℕ
bytes_of b = take b.len b.bytes

-- The head of `free` is the back of the vector, where it is pushed and popped.
pub record BufferPool : Type 0 where
  pub buffers : List (Option FrameBuffer)
  pub free : List ℕ

abbrev pub new : ℕ → ℕ → BufferPool
new count frame_capacity = record {
  buffers = replicate count (some (new_buffer frame_capacity));
  free = range_from 0 count;
}

-- The rest of `acquire`, for the entry of the index that was popped.
unfoldable pub take_out :
    BufferPool
    → ℕ
    → List ℕ
    → Option (Option FrameBuffer)
    → Option (Option (ℕ × FrameBuffer) × BufferPool)
take_out p index free none = none
take_out p index free (some none) = some (none, record p { free = free })
take_out p index free (some (some buffer)) =
    some (some (index, buffer), record { buffers = set p.buffers index none; free = free })

unfoldable pub acquire_from : BufferPool → List ℕ → Option (Option (ℕ × FrameBuffer) × BufferPool)
unfolding take_out
acquire_from p [] = some (none, p)
acquire_from p (index ∷ free) = take_out p index free (get_elem? p.buffers index)

unfoldable pub acquire : BufferPool → Option (Option (ℕ × FrameBuffer) × BufferPool)
unfolding acquire_from
acquire p = acquire_from p p.free

unfoldable pub put_back :
    BufferPool → ℕ → FrameBuffer → Option (Option FrameBuffer) → Option BufferPool
put_back p index buffer none = none
put_back p index buffer (some (some taken)) = none
put_back p index buffer (some none) =
    some (record { buffers = set p.buffers index (some buffer); free = index ∷ p.free })

unfoldable pub release : BufferPool → ℕ → FrameBuffer → Option BufferPool
unfolding put_back
release p index buffer = put_back p index buffer (get_elem? p.buffers index)

abbrev pub available : BufferPool → ℕ
available p = length p.free
