-- ===== src/Packet/Checksum/Fold.antt =====
-- `fold_sum` is the remainder by 65535, with 65535 for a sum that is a multiple of it but zero.
use yayatht.Base.{ℕ, zero, suc, ◌+◌, ◌/◌, ◌%◌, ◌^◌, ◌≤◌, ◌<◌}
use yayatht.Base.{◌≡◌, ◌↔◌, ◌⊎◌, inl, inr}
use yayatht.Base.{arith, ◌==◌, Bool-cases}
use yayatht.Base.{IsU32, ◌>>>◌}
use yayatht.Base.{bit_and_mask}
use yayatht.Packet.Checksum.{fold_loop, fold_sum, fold}

-- One round keeps the remainder and whether the sum is zero.
pub record Folded (sum out : ℕ) : Type 0 where
  pub congruent : out % 65535 ≡ sum % 65535
  pub zero : ((out ≡ 0) × (sum ≡ 0)) ⊎ ((0 < out) × (0 < sum))

round-Folded : (s : ℕ) → Folded s (s % 65536 + s / 65536)
round-Folded s = ground arith

Folded-refl : (s : ℕ) → Folded s s
Folded-refl s = ground arith

Folded-trans : (a b c : ℕ) → Folded a b → Folded b c → Folded a c
Folded-trans a b c p q = ground (arith, p, q)

fold_loop-Folded : (n s : ℕ) → Folded s (fold_loop n s)
unfolding fold_loop
fold_loop-Folded zero s = Folded-refl s
fold_loop-Folded (suc n) s = elim (Bool-cases (s >>> 16 == 0)) [
  | inl done ↦ rw done (Folded-refl s)
  | inr more ↦
      rw (more, bit_and_mask 16 s)
        (Folded-trans s (s % 65536 + s / 65536) _ (round-Folded s)
          (fold_loop-Folded n (s % 65536 + s / 65536)))
]

-- Three rounds end the loop by its own test: the sum fits 16 bits.
pub fold_loop_done : (s : ℕ) → IsU32 s → fold_loop 3 s < 2 ^ 16
unfolding fold_loop
fold_loop_done s h = ground (
  arith,
  bit_and_mask 16 s,
  bit_and_mask 16 (s % 65536 + s / 65536),
  bit_and_mask 16 ((s % 65536 + s / 65536) % 65536 + (s % 65536 + s / 65536) / 65536),
)

pub fold_sum-Folded : (s : ℕ) → IsU32 s → Folded s (fold_sum s) × (fold_sum s < 2 ^ 16)
unfolding fold_sum
fold_sum-Folded s h =
    let f = fold_loop-Folded 3 s in
    let d = fold_loop_done s h in
    (record { congruent = omega (arith, f, d); zero = ground (arith, f, d) }, omega arith)

-- A checksum verifies exactly on a non-zero sum that is a multiple of 65535.
pub fold-zero_iff : (s : ℕ) → IsU32 s → (fold s ≡ 0) ↔ ((s % 65535 ≡ 0) × (0 < s))
unfolding fold
fold-zero_iff s h =
    let (f, lt) = fold_sum-Folded s h in
    (λ e. ground (arith, e, f, lt), λ e. ground (arith, e, f, lt))

pub fold-le : (s : ℕ) → fold s ≤ 65535
unfolding fold
fold-le s = omega arith
