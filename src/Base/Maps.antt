-- ===== src/Base/Maps.antt =====
-- Maps as association lists with the library's `lookup`: `insert` replaces, `remove` takes out.
use Prim.Native.Nat.{suc, ◌+◌, ◌≤◌, ◌<◌}
use mathlib.Core.Path.{◌≡◌, refl}
use mathlib.Core.Logic.{◌≢◌, ite, if_pos, if_neg}
use mathlib.Core.List.{List, [], ◌∷◌, lookup}
use mathlib.Core.Option.{none, some}
use native.Mathlib.Omega.{arith}
use yayatht.Base.Lists.{length}

module _ {ℓ} {K V : Type ℓ} (dec : Discrete K) where
  unfoldable pub remove : K → List (K × V) → List (K × V)
  remove k [] = []
  remove k ((j, v) ∷ m) = let rest = remove k m in ite (dec k j) rest ((j, v) ∷ rest)

  unfoldable pub insert : K → V → List (K × V) → List (K × V)
  unfolding remove
  insert k v m = (k, v) ∷ remove k m

  pub lookup-remove_self : (k : K) (m : List (K × V)) → lookup dec k (remove k m) ≡ none
  unfolding lookup remove
  lookup-remove_self k [] = refl
  lookup-remove_self k (e ∷ m) = ground (arith, lookup-remove_self k m)

  pub lookup-remove_ne :
      (k q : K) (m : List (K × V)) → q ≢ k → lookup dec q (remove k m) ≡ lookup dec q m
  unfolding lookup remove
  lookup-remove_ne k q [] h = refl
  lookup-remove_ne k q (e ∷ m) h = ground (arith, lookup-remove_ne k q m)

  pub lookup-insert_self : (k : K) (v : V) (m : List (K × V)) → lookup dec k (insert k v m) ≡ some v
  unfolding lookup insert
  lookup-insert_self k v m = ground arith

  pub lookup-insert_ne :
      (k q : K) (v : V) (m : List (K × V)) → q ≢ k → lookup dec q (insert k v m) ≡ lookup dec q m
  unfolding lookup insert
  lookup-insert_ne k q v m h = ground (arith, lookup-remove_ne k q m)

  pub length-remove-le : (k : K) (m : List (K × V)) → length (remove k m) ≤ length m
  unfolding remove
  length-remove-le k [] = omega arith
  length-remove-le k (e ∷ m) = ground (arith, length-remove-le k m)

  pub length-remove-lt :
      (k : K) (m : List (K × V)) → lookup dec k m ≢ none → length (remove k m) < length m
  unfolding lookup remove
  length-remove-lt k [] h = absurd (h refl)
  length-remove-lt k (e ∷ m) h = ground (arith, length-remove-le k m, length-remove-lt k m)

  pub remove_absent : (k : K) (m : List (K × V)) → lookup dec k m ≡ none → remove k m ≡ m
  unfolding lookup remove
  remove_absent k [] h = refl
  remove_absent k (e ∷ m) h = ground (arith, remove_absent k m)

  -- No key stands twice.
  abbrev pub Distinct : List (K × V) → Type ℓ
  Distinct [] = Unit
  Distinct ((k, v) ∷ m) = (lookup dec k m ≡ none) × Distinct m

  lookup-remove-none :
      (k q : K) (m : List (K × V)) → lookup dec q m ≡ none → lookup dec q (remove k m) ≡ none
  unfolding lookup remove
  lookup-remove-none k q [] h = refl
  lookup-remove-none k q (e ∷ m) h = ground (arith, lookup-remove-none k q m)

  pub remove-Distinct : (k : K) (m : List (K × V)) → Distinct m → Distinct (remove k m)
  unfolding remove
  remove-Distinct k [] d = d
  remove-Distinct k (e ∷ m) d = elim (dec k e.0) [
    | yes p ↦ rw (if_pos _ p) (remove-Distinct k m d.1)
    | no p ↦ rw (if_neg _ p) (lookup-remove-none k e.0 m d.0, remove-Distinct k m d.1)
  ]

  pub insert-Distinct : (k : K) (v : V) (m : List (K × V)) → Distinct m → Distinct (insert k v m)
  unfolding insert
  insert-Distinct k v m d = (lookup-remove_self k m, remove-Distinct k m d)

  pub length-remove :
      (k : K) (v : V) (m : List (K × V))
      → Distinct m
      → lookup dec k m ≡ some v
      → length (remove k m) + 1 ≡ length m
  unfolding lookup remove
  length-remove k v [] d h = cc
  length-remove k v (e ∷ m) d h = elim (dec k e.0) [
    | yes p ↦ ground (arith, p, remove_absent e.0 m, d.0)
    | no p ↦ ground (arith, p, length-remove k v m d.1)
  ]

  pub length-insert :
      (k : K) (u v : V) (m : List (K × V))
      → Distinct m
      → lookup dec k m ≡ some u
      → length (insert k v m) ≡ length m
  unfolding insert
  length-insert k u v m d h = omega (arith, length-remove k u m d h)

  -- An entry that was put in under a new key is taken out.
  pub remove-insert_new :
      (k : K) (v : V) (m : List (K × V)) → lookup dec k m ≡ none → remove k (insert k v m) ≡ m
  unfolding insert remove
  remove-insert_new k v m h = ground (arith, remove_absent k m h)

  pub length-insert-le : (k : K) (v : V) (m : List (K × V)) → length (insert k v m) ≤ suc (length m)
  unfolding insert
  length-insert-le k v m = omega (arith, length-remove-le k m)
