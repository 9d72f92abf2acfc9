-- ===== src/Packet/Tcp/Options.antt =====
-- The loop over the TCP options ends: rounds beyond the number of option bytes change nothing.
use yayatht.Base.{ℕ, zero, suc, ◌-◌, ◌≤◌}
use yayatht.Base.{◌≡◌, refl}
use yayatht.Base.{List, [], ◌∷◌, arith}
use yayatht.Base.{length, drop, length-drop}
use yayatht.Packet.Tcp.{find}

-- Two bounds that are at least the number of option bytes give the same result.
pub find-enough :
    (m n kind len : ℕ) (options : List ℕ)
    → length options ≤ m
    → length options ≤ n
    → find m kind len options ≡ find n kind len options
unfolding find
find-enough zero zero kind len options hm hn = refl
find-enough zero (suc n) kind len [] hm hn = refl
find-enough (suc m) zero kind len [] hm hn = refl
find-enough zero (suc n) kind len (x ∷ options) hm hn = absurd (omega arith)
find-enough (suc m) zero kind len (x ∷ options) hm hn = absurd (omega arith)
find-enough (suc m) (suc n) kind len [] hm hn = refl
find-enough (suc m) (suc n) kind len (k ∷ []) hm hn = refl
find-enough (suc m) (suc n) kind len (k ∷ l ∷ tail) hm hn =
    let skip = find-enough m n kind len (l ∷ tail) (omega arith) (omega arith) in
    let short = length-drop (l - 2) tail in
    let jump = find-enough m n kind len (drop (l - 2) tail) (omega arith) (omega arith) in
    rw (skip, jump) refl
