-- ===== src/Base/Lists.antt =====
-- Lists measured and indexed by native numbers, under the library's names, with slices of byte
-- arrays: `slice` reads `xs[from..to]`, `splice` is `copy_from_slice` into `xs[at..]`.
use Prim.Native.Nat.{ℕ, zero, suc, ◌+◌, ◌-◌, ◌≤◌, ◌<◌, min}
use mathlib.Core.Path.{◌≡◌, refl, sym, ap, ◌∙◌}
use mathlib.Core.Logic.{◌≢◌}
use mathlib.Core.List.{List, [], ◌∷◌, ◌++◌}
use mathlib.Core.Option.{Option, none, some}
use native.Mathlib.Omega.{arith}

suc-add : (n m : ℕ) → suc (n + m) ≡ suc n + m
suc-add n m = omega arith

module _ {ℓ} {A : Type ℓ} where
  abbrev pub length : List A → ℕ
  length [] = 0
  length (x ∷ xs) = suc (length xs)

  abbrev pub get_elem? : List A → ℕ → Option A
  get_elem? [] i = none
  get_elem? (x ∷ xs) zero = some x
  get_elem? (x ∷ xs) (suc i) = get_elem? xs i

  abbrev pub get_or : List A → ℕ → A → A
  get_or [] i d = d
  get_or (x ∷ xs) zero d = x
  get_or (x ∷ xs) (suc i) d = get_or xs i d

  -- A write out of bounds changes nothing.
  abbrev pub set : List A → ℕ → A → List A
  set [] i v = []
  set (x ∷ xs) zero v = v ∷ xs
  set (x ∷ xs) (suc i) v = x ∷ set xs i v

  abbrev pub take : ℕ → List A → List A
  take zero xs = []
  take (suc n) [] = []
  take (suc n) (x ∷ xs) = x ∷ take n xs

  abbrev pub drop : ℕ → List A → List A
  drop zero xs = xs
  drop (suc n) [] = []
  drop (suc n) (x ∷ xs) = drop n xs

  abbrev pub replicate : ℕ → A → List A
  replicate zero a = []
  replicate (suc n) a = a ∷ replicate n a

  abbrev pub slice : List A → ℕ → ℕ → List A
  slice xs from to = take (to - from) (drop from xs)

  -- Bytes that do not fit are dropped; the callers check the length first.
  abbrev pub splice : List A → ℕ → List A → List A
  splice [] at bs = []
  splice (x ∷ xs) (suc at) bs = x ∷ splice xs at bs
  splice (x ∷ xs) zero [] = x ∷ xs
  splice (x ∷ xs) zero (b ∷ bs) = b ∷ splice xs zero bs

  abbrev pub All {κ} : (A → Type κ) → List A → Type κ
  All P [] = Unit {κ}
  All P (x ∷ xs) = P x × All P xs

  pub length-append : (xs ys : List A) → length (xs ++ ys) ≡ length xs + length ys
  length-append [] ys = omega arith
  length-append (x ∷ xs) ys = omega (arith, length-append xs ys)

  pub length-set : (xs : List A) (i : ℕ) (v : A) → length (set xs i v) ≡ length xs
  length-set [] i v = refl
  length-set (x ∷ xs) zero v = refl
  length-set (x ∷ xs) (suc i) v = ap suc (length-set xs i v)

  pub get_elem?-set_self :
      (xs : List A) (i : ℕ) (v : A) → i < length xs → get_elem? (set xs i v) i ≡ some v
  get_elem?-set_self [] i v h = elim h [ ]
  get_elem?-set_self (x ∷ xs) zero v h = refl
  get_elem?-set_self (x ∷ xs) (suc i) v h = get_elem?-set_self xs i v (omega arith)

  pub get_elem?-set_ne :
      (xs : List A) (i j : ℕ) (v : A) → i ≢ j → get_elem? (set xs i v) j ≡ get_elem? xs j
  get_elem?-set_ne [] i j v h = refl
  get_elem?-set_ne (x ∷ xs) zero zero v h = absurd (h refl)
  get_elem?-set_ne (x ∷ xs) zero (suc j) v h = refl
  get_elem?-set_ne (x ∷ xs) (suc i) zero v h = refl
  get_elem?-set_ne (x ∷ xs) (suc i) (suc j) v h = get_elem?-set_ne xs i j v (λ e. h (ap suc e))

  pub get_elem?-lt : (xs : List A) (i : ℕ) (a : A) → get_elem? xs i ≡ some a → i < length xs
  get_elem?-lt [] i a h = cc
  get_elem?-lt (x ∷ xs) zero a h = omega arith
  get_elem?-lt (x ∷ xs) (suc i) a h = omega (arith, get_elem?-lt xs i a h)

  pub length-take : (n : ℕ) (xs : List A) → length (take n xs) ≡ min n (length xs)
  length-take zero xs = omega arith
  length-take (suc n) [] = omega arith
  length-take (suc n) (x ∷ xs) = omega (arith, length-take n xs)

  pub length-drop : (n : ℕ) (xs : List A) → length (drop n xs) ≡ length xs - n
  length-drop zero xs = omega arith
  length-drop (suc n) [] = omega arith
  length-drop (suc n) (x ∷ xs) = omega (arith, length-drop n xs)

  pub length-replicate : (n : ℕ) (a : A) → length (replicate n a) ≡ n
  length-replicate zero a = refl
  length-replicate (suc n) a = ap suc (length-replicate n a)

  pub length-splice : (xs : List A) (at : ℕ) (bs : List A) → length (splice xs at bs) ≡ length xs
  length-splice [] at bs = refl
  length-splice (x ∷ xs) (suc at) bs = ap suc (length-splice xs at bs)
  length-splice (x ∷ xs) zero [] = refl
  length-splice (x ∷ xs) zero (b ∷ bs) = ap suc (length-splice xs zero bs)

  pub splice-nil : (xs : List A) (at : ℕ) → splice xs at [] ≡ xs
  splice-nil [] at = refl
  splice-nil (x ∷ xs) (suc at) = ap (◌∷◌ x) (splice-nil xs at)
  splice-nil (x ∷ xs) zero = refl

  -- What follows the written block directly is a longer block.
  pub splice-splice :
      (xs : List A) (at : ℕ) (bs cs : List A) (next : ℕ)
      → next ≡ at + length bs
      → splice (splice xs at bs) next cs ≡ splice xs at (bs ++ cs)
  splice-splice [] at bs cs next e = refl
  splice-splice (x ∷ xs) (suc at) bs cs zero e = absurd (omega arith)
  splice-splice (x ∷ xs) (suc at) bs cs (suc next) e =
      ap (◌∷◌ x) (splice-splice xs at bs cs next (omega arith))
  splice-splice (x ∷ xs) zero [] cs zero e = refl
  splice-splice (x ∷ xs) zero [] cs (suc next) e = absurd (omega arith)
  splice-splice (x ∷ xs) zero (b ∷ bs) cs zero e = absurd (omega arith)
  splice-splice (x ∷ xs) zero (b ∷ bs) cs (suc next) e =
      ap (◌∷◌ b) (splice-splice xs zero bs cs next (omega arith))

  pub splice-zero :
      (xs bs : List A) → length bs ≤ length xs → splice xs 0 bs ≡ bs ++ drop (length bs) xs
  splice-zero [] [] h = refl
  splice-zero [] (b ∷ bs) h = absurd (omega arith)
  splice-zero (x ∷ xs) [] h = refl
  splice-zero (x ∷ xs) (b ∷ bs) h = ap (◌∷◌ b) (splice-zero xs bs (omega arith))

  pub take-append : (n : ℕ) (xs ys : List A) → n ≡ length xs → take n (xs ++ ys) ≡ xs
  take-append zero [] ys e = refl
  take-append (suc n) [] ys e = absurd (omega arith)
  take-append zero (x ∷ xs) ys e = absurd (omega arith)
  take-append (suc n) (x ∷ xs) ys e = ap (◌∷◌ x) (take-append n xs ys (omega arith))

  drop-nil : (n : ℕ) → drop n [] ≡ []
  drop-nil zero = refl
  drop-nil (suc n) = refl

  pub drop-append : (n : ℕ) (xs ys : List A) → n ≡ length xs → drop n (xs ++ ys) ≡ ys
  drop-append zero [] ys e = refl
  drop-append (suc n) [] ys e = absurd (omega arith)
  drop-append zero (x ∷ xs) ys e = absurd (omega arith)
  drop-append (suc n) (x ∷ xs) ys e = drop-append n xs ys (omega arith)

  pub take_all : (n : ℕ) (xs : List A) → length xs ≤ n → take n xs ≡ xs
  take_all zero [] h = refl
  take_all zero (x ∷ xs) h = absurd (omega arith)
  take_all (suc n) [] h = refl
  take_all (suc n) (x ∷ xs) h = ap (◌∷◌ x) (take_all n xs (omega arith))

  pub drop-drop : (m n : ℕ) (xs : List A) → drop m (drop n xs) ≡ drop (n + m) xs
  drop-drop m zero xs = ap (λ k. drop k xs) (omega arith)
  drop-drop m (suc n) [] = drop-nil m ∙ sym (drop-nil (suc n + m))
  drop-drop m (suc n) (x ∷ xs) = drop-drop m n xs ∙ ap (λ k. drop k (x ∷ xs)) (suc-add n m)

  -- A block written over one of its length leaves nothing of it.
  pub splice_over :
      (xs : List A) (at : ℕ) (bs cs : List A)
      → length bs ≡ length cs
      → splice (splice xs at bs) at cs ≡ splice xs at cs
  splice_over [] at bs cs e = refl
  splice_over (x ∷ xs) (suc at) bs cs e = ap (◌∷◌ x) (splice_over xs at bs cs e)
  splice_over (x ∷ xs) zero [] [] e = refl
  splice_over (x ∷ xs) zero [] (c ∷ cs) e = absurd (omega arith)
  splice_over (x ∷ xs) zero (b ∷ bs) [] e = absurd (omega arith)
  splice_over (x ∷ xs) zero (b ∷ bs) (c ∷ cs) e =
      ap (◌∷◌ c) (splice_over xs zero bs cs (omega arith))

  pub take-append_more :
      (n m : ℕ) (xs ys : List A) → n ≡ length xs + m → take n (xs ++ ys) ≡ xs ++ take m ys
  take-append_more n m [] ys e = ap (λ k. take k ys) (omega (arith, e))
  take-append_more zero m (x ∷ xs) ys e = absurd (omega arith)
  take-append_more (suc n) m (x ∷ xs) ys e = ap (◌∷◌ x) (take-append_more n m xs ys (omega arith))
