-- ===== src/Base/Words.antt =====
-- Machine words as native numbers below 2 ^ w, with the wrap-around of Rust's operations, and the
-- big-endian bytes of a word.
use Prim.Native.Nat.{ℕ, ◌+◌, ◌-◌, ◌*◌, ◌/◌, ◌%◌, ◌^◌, ◌<◌}
use mathlib.Core.Path.{◌≡◌}
use mathlib.Core.List.{List, [], ◌∷◌}
use native.Mathlib.Omega.{arith}

abbrev pub u8_max : ℕ
u8_max = 0xff

abbrev pub u16_max : ℕ
u16_max = 0xffff

abbrev pub u32_max : ℕ
u32_max = 0xffff_ffff

abbrev pub u64_max : ℕ
u64_max = 0xffff_ffff_ffff_ffff

abbrev pub IsU8 : ℕ → Type 0
IsU8 n = n < 2 ^ 8

abbrev pub IsU16 : ℕ → Type 0
IsU16 n = n < 2 ^ 16

abbrev pub IsU32 : ℕ → Type 0
IsU32 n = n < 2 ^ 32

abbrev pub u8 : ℕ → ℕ
u8 n = n % 2 ^ 8

abbrev pub u16 : ℕ → ℕ
u16 n = n % 2 ^ 16

abbrev pub u32 : ℕ → ℕ
u32 n = n % 2 ^ 32

abbrev pub u64 : ℕ → ℕ
u64 n = n % 2 ^ 64

-- `u32::wrapping_add` and `u32::wrapping_sub`.
abbrev pub add32 : ℕ → ℕ → ℕ
add32 a b = (a + b) % 2 ^ 32

abbrev pub sub32 : ℕ → ℕ → ℕ
sub32 a b = (a + 2 ^ 32 - b) % 2 ^ 32

infixl 75 ◌<<<◌ ◌>>>◌
abbrev pub ◌<<<◌ : ℕ → ℕ → ℕ
x <<< k = x * 2 ^ k

abbrev pub ◌>>>◌ : ℕ → ℕ → ℕ
x >>> k = x / 2 ^ k

-- `u16::from_be_bytes` and `u16::to_be_bytes`.
abbrev pub be16 : ℕ → ℕ → ℕ
be16 hi lo = hi * 256 + lo

abbrev pub bytes16 : ℕ → List ℕ
bytes16 w = (w / 256 % 256) ∷ (w % 256) ∷ []

-- `u32::from_be_bytes` and `u32::to_be_bytes`.
abbrev pub be32 : ℕ → ℕ → ℕ → ℕ → ℕ
be32 a b c d = ((a * 256 + b) * 256 + c) * 256 + d

abbrev pub bytes32 : ℕ → List ℕ
bytes32 w = (w / 2 ^ 24 % 256) ∷ (w / 2 ^ 16 % 256) ∷ (w / 256 % 256) ∷ (w % 256) ∷ []

pub be16-bytes16 : (w : ℕ) → IsU16 w → be16 (w / 256 % 256) (w % 256) ≡ w
be16-bytes16 w h = omega arith

pub be32-bytes32 :
    (w : ℕ) → IsU32 w → be32 (w / 2 ^ 24 % 256) (w / 2 ^ 16 % 256) (w / 256 % 256) (w % 256) ≡ w
be32-bytes32 w h = omega arith
