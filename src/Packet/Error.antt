-- ===== src/Packet/Error.antt =====
-- `PacketError` of crates/packet/src/lib.rs and its results. A function that writes into a buffer
-- returns the new buffer; what a failed call leaves in the buffer is not read.
use yayatht.Base.{ℕ, ◌+◌, List, be32}
pub use yayatht.Base.{byte_at, word16}

pub data PacketError : Type 0 where
  truncated invalid_length unsupported invalid_checksum protocol_mismatch : PacketError

pub data Result {ℓ} (A : Type ℓ) : Type ℓ where
  ok : A → Result A
  err : PacketError → Result A

infixl 5 ◌>>=◌
abbrev pub ◌>>=◌ {ℓ κ} : {A : Type ℓ} {B : Type κ} → Result A → (A → Result B) → Result B
ok a >>= f = f a
err e >>= f = err e

abbrev pub word32 : List ℕ → ℕ → ℕ
word32 bytes i =
    be32 (byte_at bytes i) (byte_at bytes (i + 1)) (byte_at bytes (i + 2)) (byte_at bytes (i + 3))
