-- ===== src/Tcp/Sequence.antt =====
-- crates/tcp-adapter/src/sequence.rs: comparison of 32-bit sequence numbers by the sign of their
-- wrapped difference.
use yayatht.Base.{ℕ, ◌-◌, ◌^◌, ◌≤◌, ◌<◌}
use yayatht.Base.{◌≡◌, Bool, ◌||◌}
use yayatht.Base.{arith, ltb, leb, ◌==◌}
use yayatht.Base.{IsU32, add32, sub32}

-- `(left.wrapping_sub(right) as i32) < 0`: the top bit of the difference is set.
unfoldable pub before : ℕ → ℕ → Bool
before left right = leb (2 ^ 31) (sub32 left right)

unfoldable pub after : ℕ → ℕ → Bool
unfolding before
after left right = before right left

unfoldable pub before_or_equal : ℕ → ℕ → Bool
unfolding before
before_or_equal left right = left == right || before left right

unfoldable pub distance : ℕ → ℕ → ℕ
distance start end = sub32 end start

-- Two numbers that lie less than 2 ^ 31 beyond a common start compare as their offsets do, and their
-- distance is the difference of the offsets, wherever the start is and whether or not they wrap.
pub before_offsets :
    (start i j : ℕ)
    → IsU32 start
    → i < 2 ^ 31
    → j < 2 ^ 31
    → (before (add32 start i) (add32 start j) ≡ ltb i j)
      × (after (add32 start i) (add32 start j) ≡ ltb j i)
      × (before_or_equal (add32 start i) (add32 start j) ≡ leb i j)
      × (i ≤ j → distance (add32 start i) (add32 start j) ≡ j - i)
unfolding before after before_or_equal distance
before_offsets start i j hs hi hj = (ground arith, ground arith, ground arith, λ le. omega arith)

pub add32-distance : (a b : ℕ) → IsU32 a → IsU32 b → add32 a (distance a b) ≡ b
unfolding distance
add32-distance a b ha hb = omega arith
