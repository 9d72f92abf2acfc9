-- ===== src/Base/Reads.antt =====
-- Reads behind a known prefix, and a byte write as a block of one.
use Prim.Native.Nat.{◌≤◌, ℕ, zero, suc, ◌+◌}
use mathlib.Core.Path.{◌≡◌, refl, sym, ap, ◌∙◌}
use mathlib.Core.List.{List, [], ◌∷◌, ◌++◌}
use native.Mathlib.Omega.{arith}
use mathlib.Core.Option.{some}
use yayatht.Base.Lists.{
  take, get_elem?, length, get_or, set, drop, splice, splice-nil, drop-append, drop-drop,
}
use yayatht.Base.Words.{IsU16, be16, bytes16}

pub append_assoc {ℓ} : {A : Type ℓ} (xs ys zs : List A) → (xs ++ ys) ++ zs ≡ xs ++ (ys ++ zs)
append_assoc [] ys zs = refl
append_assoc (x ∷ xs) ys zs = ap (◌∷◌ x) (append_assoc xs ys zs)

pub set-splice {ℓ} : {A : Type ℓ} (xs : List A) (i : ℕ) (v : A) → set xs i v ≡ splice xs i (v ∷ [])
set-splice [] i v = refl
set-splice (x ∷ xs) zero v = ap (◌∷◌ v) (sym (splice-nil xs 0))
set-splice (x ∷ xs) (suc i) v = ap (◌∷◌ x) (set-splice xs i v)

-- A word behind a prefix of n bytes.
pub word16-after :
    (xs ys : List ℕ) (n w : ℕ)
    → n ≡ length xs
    → IsU16 w
    → let all = xs ++ (bytes16 w ++ ys) in be16 (get_or all n 0) (get_or all (n + 1) 0) ≡ w
word16-after [] ys zero w e h = omega arith
word16-after [] ys (suc n) w e h = absurd (omega arith)
word16-after (x ∷ xs) ys zero w e h = absurd (omega arith)
word16-after (x ∷ xs) ys (suc n) w e h =
    let shift : suc n + 1 ≡ suc (n + 1) = omega arith in
    let rest = xs ++ (bytes16 w ++ ys) in
    ap (λ k. be16 (get_or rest n 0) (get_or (x ∷ rest) k 0)) shift
    ∙ word16-after xs ys n w (omega arith) h

-- What stands behind the word.
pub drop-after :
    (xs ys : List ℕ) (n m w : ℕ) → n ≡ length xs → m ≡ n + 2 → drop m (xs ++ (bytes16 w ++ ys)) ≡ ys
drop-after xs ys n m w e f =
    ap (λ k. drop k (xs ++ (bytes16 w ++ ys))) f
    ∙ sym (drop-drop 2 n (xs ++ (bytes16 w ++ ys)))
    ∙ ap (drop 2) (drop-append n xs (bytes16 w ++ ys) e)

-- `bytes[i]`; every caller has checked the length.
abbrev pub byte_at : List ℕ → ℕ → ℕ
byte_at bytes i = get_or bytes i 0

-- `u16::from_be_bytes([bytes[i], bytes[i + 1]])`.
abbrev pub word16 : List ℕ → ℕ → ℕ
word16 bytes i = be16 (byte_at bytes i) (byte_at bytes (i + 1))

pub append_nil {ℓ} : {A : Type ℓ} (xs : List A) → xs ++ [] ≡ xs
append_nil [] = refl
append_nil (x ∷ xs) = ap (◌∷◌ x) (append_nil xs)

pub drop-append_less {ℓ} :
    {A : Type ℓ} (n : ℕ) (xs ys : List A) → n ≤ length xs → drop n (xs ++ ys) ≡ drop n xs ++ ys
drop-append_less zero xs ys h = refl
drop-append_less (suc n) [] ys h = absurd (omega arith)
drop-append_less (suc n) (x ∷ xs) ys h = drop-append_less n xs ys (omega arith)

pub take-drop {ℓ} : {A : Type ℓ} (n : ℕ) (xs : List A) → take n xs ++ drop n xs ≡ xs
take-drop zero xs = refl
take-drop (suc n) [] = refl
take-drop (suc n) (x ∷ xs) = ap (◌∷◌ x) (take-drop n xs)

pub set-set {ℓ} : {A : Type ℓ} (xs : List A) (i : ℕ) (u v : A) → set (set xs i u) i v ≡ set xs i v
set-set [] i u v = refl
set-set (x ∷ xs) zero u v = refl
set-set (x ∷ xs) (suc i) u v = ap (◌∷◌ x) (set-set xs i u v)

pub set_same {ℓ} :
    {A : Type ℓ} (xs : List A) (i : ℕ) (v : A) → get_elem? xs i ≡ some v → set xs i v ≡ xs
set_same [] i v h = refl
set_same (x ∷ xs) zero v h = ap (λ y. y ∷ xs) (ground arith)
set_same (x ∷ xs) (suc i) v h = ap (◌∷◌ x) (set_same xs i v h)
