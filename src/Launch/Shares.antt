-- ===== src/Launch/Shares.antt =====
-- `worker_share` divides a limit among the workers.
use yayatht.Base.{ℕ, zero, suc, ◌+◌, ◌*◌, ◌/◌, ◌%◌, ◌≤◌, min}
use yayatht.Base.{◌≡◌}
use yayatht.Base.{arith}
use native.Mathlib.Nat.{div-add-mod, mod-lt, le-div_iff_mul-le}
use yayatht.Launch.Config.{worker_share}

-- The shares of the first workers.
abbrev pub shares : ℕ → ℕ → ℕ → ℕ
shares total workers zero = 0
shares total workers (suc n) = shares total workers n + worker_share total workers n

first_shares :
    (total workers n : ℕ) → shares total workers n ≡ n * (total / workers) + min n (total % workers)
unfolding worker_share
first_shares total workers zero = omega arith
first_shares total workers (suc n) = ground (arith, first_shares total workers n)

-- The shares of all the workers add up to the limit, and no two differ by more than one.
pub shares-total :
    (total workers : ℕ)
    → 1 ≤ workers
    → (shares total workers workers ≡ total)
      × ((i j : ℕ) → worker_share total workers i ≤ worker_share total workers j + 1)
unfolding worker_share
shares-total total workers h = (
  omega (arith, first_shares total workers workers, div-add-mod total workers, mod-lt total h),
  λ i j. ground arith,
)

-- A share is no less than a quantum that the limit holds for every worker, and no more than the limit.
pub worker_share-bounds :
    (total workers i quantum : ℕ)
    → 1 ≤ workers
    → workers * quantum ≤ total
    → (quantum ≤ worker_share total workers i) × (worker_share total workers i ≤ total)
unfolding worker_share
worker_share-bounds total zero i quantum h le = absurd (omega arith)
worker_share-bounds total (suc w) i quantum h le =
    let low : quantum ≤ total / suc w =
      (le-div_iff_mul-le {k = suc w} {x = quantum} {y = total} h).1 (omega (arith, le)) in
    (ground (arith, low), ground (arith, div-add-mod total (suc w)))
