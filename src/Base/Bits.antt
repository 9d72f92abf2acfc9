-- ===== src/Base/Bits.antt =====
-- `|` and `&` on words cut into fields: each acts on the fields above and below a bit position
-- separately, so disjoint fields add up and a run of ones is a remainder.
use Prim.Native.Nat.{
  ℕ, zero, suc, ◌+◌, ◌-◌, ◌*◌, ◌/◌, ◌%◌, ◌^◌, ◌≤◌, ◌<◌, min, max, bit_and, bit_or, digits,
  bit_and-bitwise, bit_or-bitwise,
}
use mathlib.Core.Path.{◌≡◌, refl, sym, ap, ap₂, ◌∙◌}
use native.Mathlib.Nat.{pow-suc, one-le-pow, mod-lt, div-add-mod'}
use native.Mathlib.Omega.{arith}

module _ (rest : ℕ → ℕ) (digit : ℕ → ℕ → ℕ) where
  -- Fuel beyond the number itself changes nothing.
  digits-enough : (m n a b : ℕ) → a ≤ m → a ≤ n → digits rest digit m a b ≡ digits rest digit n a b
  digits-enough zero zero a b p q = refl
  digits-enough zero (suc n) zero b p q = refl
  digits-enough zero (suc n) (suc a) b p q = absurd (omega arith)
  digits-enough (suc m) zero zero b p q = refl
  digits-enough (suc m) zero (suc a) b p q = absurd (omega arith)
  digits-enough (suc m) (suc n) zero b p q = refl
  digits-enough (suc m) (suc n) (suc a) b p q =
      ap (λ t. t * 2 + digit (suc a % 2) (b % 2))
        (digits-enough m n (suc a / 2) (b / 2) (omega arith) (omega arith))

or_digit : (a b : ℕ) → bit_or a b ≡ bit_or (a / 2) (b / 2) * 2 + max (a % 2) (b % 2)
or_digit zero b = simp bit_or-bitwise (omega arith)
or_digit (suc a) b = omega (
  arith,
  bit_or-bitwise (suc a) b,
  bit_or-bitwise (suc a / 2) (b / 2),
  digits-enough (λ y. y) max a (suc a / 2) (suc a / 2) (b / 2) (omega arith) (omega arith),
)

and_digit : (a b : ℕ) → bit_and a b ≡ bit_and (a / 2) (b / 2) * 2 + min (a % 2) (b % 2)
and_digit zero b = simp bit_and-bitwise (omega arith)
and_digit (suc a) b = omega (
  arith,
  bit_and-bitwise (suc a) b,
  bit_and-bitwise (suc a / 2) (b / 2),
  digits-enough (λ y. 0) min a (suc a / 2) (suc a / 2) (b / 2) (omega arith) (omega arith),
)

pub zero-bit_or : (b : ℕ) → bit_or 0 b ≡ b
zero-bit_or b = bit_or-bitwise 0 b

or_zero_below : (n a : ℕ) → a ≤ n → bit_or a 0 ≡ a
or_zero_below n zero h = refl
or_zero_below zero (suc a) h = absurd (omega arith)
or_zero_below (suc n) (suc a) h =
    omega (arith, or_digit (suc a) 0, or_zero_below n (suc a / 2) (omega arith))

pub bit_or-zero : (a : ℕ) → bit_or a 0 ≡ a
bit_or-zero a = or_zero_below a a (omega arith)

and_zero_below : (n a : ℕ) → a ≤ n → bit_and a 0 ≡ 0
and_zero_below n zero h = refl
and_zero_below zero (suc a) h = absurd (omega arith)
and_zero_below (suc n) (suc a) h =
    omega (arith, and_digit (suc a) 0, and_zero_below n (suc a / 2) (omega arith))

pub bit_and-zero : (a : ℕ) → bit_and a 0 ≡ 0
bit_and-zero a = and_zero_below a a (omega arith)

double_pow : (x k : ℕ) → x * 2 ^ suc k ≡ 2 * (x * 2 ^ k)
double_pow x k = omega (arith, ap (λ (t : ℕ). x * t) (pow-suc 2 k))

half_cut : (k p r : ℕ) → (p * 2 ^ suc k + r) / 2 ≡ p * 2 ^ k + r / 2
half_cut k p r = omega (arith, double_pow p k)

low_cut : (k p r : ℕ) → (p * 2 ^ suc k + r) % 2 ≡ r % 2
low_cut k p r = omega (arith, double_pow p k)

half_below : (k r : ℕ) → r < 2 ^ suc k → r / 2 < 2 ^ k
half_below k r h = omega (arith, pow-suc 2 k)

-- `|` of two words cut at bit `k` is the `|` of the upper parts above that of the lower parts.
pub bit_or_cut :
    (k p r q s : ℕ)
    → r < 2 ^ k
    → s < 2 ^ k
    → bit_or (p * 2 ^ k + r) (q * 2 ^ k + s) ≡ bit_or p q * 2 ^ k + bit_or r s
bit_or_cut zero p zero q zero hr hs =
    ap₂ bit_or {y = p} {v = q} (omega arith) (omega arith) ∙ omega (arith, bit_or-zero 0)
bit_or_cut zero p (suc r) q s hr hs = absurd (omega arith)
bit_or_cut zero p zero q (suc s) hr hs = absurd (omega arith)
bit_or_cut (suc k) p r q s hr hs =
    let below = bit_or_cut k p (r / 2) q (s / 2) (half_below k r hr) (half_below k s hs) in
    rw (or_digit (p * 2 ^ suc k + r), half_cut k p r, half_cut k q s, low_cut k p r, low_cut k q s)
      (omega (arith, below, or_digit r s, double_pow (bit_or p q) k))

pub bit_and_cut :
    (k p r q s : ℕ)
    → r < 2 ^ k
    → s < 2 ^ k
    → bit_and (p * 2 ^ k + r) (q * 2 ^ k + s) ≡ bit_and p q * 2 ^ k + bit_and r s
bit_and_cut zero p zero q zero hr hs =
    ap₂ bit_and {y = p} {v = q} (omega arith) (omega arith) ∙ omega (arith, bit_and-zero 0)
bit_and_cut zero p (suc r) q s hr hs = absurd (omega arith)
bit_and_cut zero p zero q (suc s) hr hs = absurd (omega arith)
bit_and_cut (suc k) p r q s hr hs =
    let below = bit_and_cut k p (r / 2) q (s / 2) (half_below k r hr) (half_below k s hs) in
    rw (and_digit (p * 2 ^ suc k + r), half_cut k p r, half_cut k q s, low_cut k p r, low_cut k q s)
      (omega (arith, below, and_digit r s, double_pow (bit_and p q) k))

-- Disjoint fields add up.
pub bit_or_fields : (k p r : ℕ) → r < 2 ^ k → bit_or (p * 2 ^ k) r ≡ p * 2 ^ k + r
bit_or_fields k p r h =
    ap₂ bit_or {x = p * 2 ^ k} {y = p * 2 ^ k + 0} (omega arith) (omega arith)
    ∙ bit_or_cut k p 0 0 r (one-le-pow k 2 (omega arith)) h
    ∙ omega (arith, ap (λ (t : ℕ). t * 2 ^ k) (bit_or-zero p), zero-bit_or r)

-- A mask of `k` ones keeps the lowest `k` bits.
mask_below : (k r : ℕ) → r < 2 ^ k → bit_and r (2 ^ k - 1) ≡ r
mask_below zero zero h = refl
mask_below zero (suc r) h = absurd (omega arith)
mask_below (suc k) r h =
    rw (and_digit r, mask_half) (omega (arith, mask_below k (r / 2) (half_below k r h), mask_low))
  where
    mask_half : (2 ^ suc k - 1) / 2 ≡ 2 ^ k - 1
    mask_half = omega (arith, pow-suc 2 k, one-le-pow k 2 (omega arith))

    mask_low : (2 ^ suc k - 1) % 2 ≡ 1
    mask_low = omega (arith, pow-suc 2 k, one-le-pow k 2 (omega arith))

pub bit_and_mask : (k a : ℕ) → bit_and a (2 ^ k - 1) ≡ a % 2 ^ k
bit_and_mask k a =
    let pos : 0 < 2 ^ k = one-le-pow k 2 (omega arith) in
    let mask : 2 ^ k - 1 < 2 ^ k = omega arith in
    ap₂ bit_and {y = a / 2 ^ k * 2 ^ k + a % 2 ^ k} {v = 0 * 2 ^ k + (2 ^ k - 1)}
      (sym (div-add-mod' a (2 ^ k))) (omega arith)
    ∙ bit_and_cut k (a / 2 ^ k) (a % 2 ^ k) 0 (2 ^ k - 1) (mod-lt a pos) mask
    ∙ omega (
      arith,
      ap (λ (t : ℕ). t * 2 ^ k) (bit_and-zero (a / 2 ^ k)),
      mask_below k (a % 2 ^ k) (mod-lt a pos),
    )

-- A field of `j` bits goes into free room at bit `k`.
pub bit_or_insert :
    (k j p q r : ℕ)
    → q < 2 ^ j
    → r < 2 ^ k
    → bit_or (p * 2 ^ j * 2 ^ k + r) (q * 2 ^ k) ≡ (p * 2 ^ j + q) * 2 ^ k + r
bit_or_insert k j p q r hq hr =
    ap (bit_or (p * 2 ^ j * 2 ^ k + r)) {y = q * 2 ^ k + 0} (omega arith)
    ∙ bit_or_cut k (p * 2 ^ j) r q 0 hr (one-le-pow k 2 (omega arith))
    ∙ ap₂ ◌+◌ (ap (λ t. t * 2 ^ k) (bit_or_fields j p q hq)) (bit_or-zero r)

-- A field of `j` bits at bit `k` is read by a mask of `j` ones at bit `k`.
pub bit_and_field : (k j a : ℕ) → bit_and a ((2 ^ j - 1) * 2 ^ k) ≡ a / 2 ^ k % 2 ^ j * 2 ^ k
bit_and_field k j a =
    let pos : 0 < 2 ^ k = one-le-pow k 2 (omega arith) in
    ap₂ bit_and {y = a / 2 ^ k * 2 ^ k + a % 2 ^ k} {v = (2 ^ j - 1) * 2 ^ k + 0}
      (sym (div-add-mod' a (2 ^ k))) (omega arith)
    ∙ bit_and_cut k (a / 2 ^ k) (a % 2 ^ k) (2 ^ j - 1) 0 (mod-lt a pos) pos
    ∙ omega
        (arith, ap (λ (t : ℕ). t * 2 ^ k) (bit_and_mask j (a / 2 ^ k)), bit_and-zero (a % 2 ^ k))
