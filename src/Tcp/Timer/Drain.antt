-- ===== src/Tcp/Timer/Drain.antt =====
-- One slot of the wheel: its due entries come out, in order, and the others stay.
use yayatht.Base.{ℕ, zero, suc, ◌<◌}
use yayatht.Base.{◌≡◌, refl, ap, ◌∙◌, ◌≢◌, inl, inr}
use yayatht.Base.{some, List, [], ◌∷◌, ◌++◌, arith, leb, if◌then◌else◌, Bool-cases}
use yayatht.Base.{length, get_or, set, All, length-set, append_assoc, append_nil, set-set}
use yayatht.Tcp.Timer.{TimerEntry, TimerWheel, slot_of, schedule, drain_next, drain}

pub get_or-set_self {ℓ} :
    {A : Type ℓ} (xs : List A) (i : ℕ) (v d : A) → i < length xs → get_or (set xs i v) i d ≡ v
get_or-set_self [] i v d h = absurd (omega arith)
get_or-set_self (x ∷ xs) zero v d h = refl
get_or-set_self (x ∷ xs) (suc i) v d h = get_or-set_self xs i v d (omega arith)

pub get_or-set_ne {ℓ} :
    {A : Type ℓ} (xs : List A) (i j : ℕ) (v d : A) → i ≢ j → get_or (set xs i v) j d ≡ get_or xs j d
get_or-set_ne [] i j v d h = refl
get_or-set_ne (x ∷ xs) zero zero v d h = absurd (h refl)
get_or-set_ne (x ∷ xs) zero (suc j) v d h = refl
get_or-set_ne (x ∷ xs) (suc i) zero v d h = refl
get_or-set_ne (x ∷ xs) (suc i) (suc j) v d h = get_or-set_ne xs i j v d (λ e. h (ap suc e))

set-get_or {ℓ} : {A : Type ℓ} (xs : List A) (i : ℕ) (d : A) → set xs i (get_or xs i d) ≡ xs
set-get_or [] i d = refl
set-get_or (x ∷ xs) zero d = refl
set-get_or (x ∷ xs) (suc i) d = ap (◌∷◌ x) (set-get_or xs i d)

module _ {ℓ} {T : Type ℓ} where
  -- The entries of a bucket that are due, and those that are not.
  abbrev pub dues : ℕ → List (TimerEntry T) → List (TimerEntry T)
  dues now [] = []
  dues now (e ∷ es) = let rest = dues now es in if leb e.deadline now then e ∷ rest else rest

  abbrev pub later : ℕ → List (TimerEntry T) → List (TimerEntry T)
  later now [] = []
  later now (e ∷ es) = let rest = later now es in if leb e.deadline now then rest else e ∷ rest

  -- The entries belong to a slot.
  abbrev pub Placed : TimerWheel T → ℕ → List (TimerEntry T) → Type 0
  Placed w slot = All (λ e. slot_of w e ≡ slot)

  abbrev with_buckets : TimerWheel T → List (List (TimerEntry T)) → TimerWheel T
  with_buckets w buckets = record w { buckets = buckets }

  pub Placed-resize :
      (w : TimerWheel T) (slot : ℕ) (buckets : List (List (TimerEntry T)))
      (es : List (TimerEntry T))
      → length buckets ≡ length w.buckets
      → Placed w slot es
      → Placed (record w { buckets = buckets }) slot es
  Placed-resize w slot buckets [] h p = p
  Placed-resize w slot buckets (e ∷ es) h p = (rw h p.0, Placed-resize w slot buckets es h p.1)

  -- An entry that is put back goes to the end of its slot.
  schedule_back :
      (w : TimerWheel T) (slot : ℕ) (e : TimerEntry T) (bucket : List (TimerEntry T))
      → slot < length w.buckets
      → slot_of w e ≡ slot
      → schedule (with_buckets w (set w.buckets slot bucket)) e
        ≡ with_buckets w (set w.buckets slot (bucket ++ e ∷ []))
  schedule_back w slot e bucket h own =
      let place : slot_of (with_buckets w (set w.buckets slot bucket)) e ≡ slot =
        rw (length-set w.buckets slot bucket) own in
      ap
        (λ j.
          with_buckets w
            (set (set w.buckets slot bucket) j (get_or (set w.buckets slot bucket) j [] ++ e ∷ [])))
        place
      ∙ ap (λ b. with_buckets w (set (set w.buckets slot bucket) slot (b ++ e ∷ [])))
          (get_or-set_self w.buckets slot bucket [] h)
      ∙ ap (with_buckets w) (set-set w.buckets slot bucket (bucket ++ e ∷ []))

  pub drain-dues :
      (w : TimerWheel T) (slot now : ℕ) (es kept out : List (TimerEntry T))
      → slot < length w.buckets
      → get_or w.buckets slot [] ≡ es ++ kept
      → Placed w slot es
      → drain (length es) w slot now out
        ≡ some
            (record w { buckets = set w.buckets slot (kept ++ later now es) }, out ++ dues now es)
  unfolding drain drain_next
  drain-dues w slot now [] kept out h b p =
      rw (append_nil kept, append_nil out, ← b, set-get_or w.buckets slot []) refl
  drain-dues w slot now (e ∷ es) kept out h b p =
      let bk = w.buckets in
      let popped = set bk slot (es ++ kept) in
      let put_back = set bk slot (es ++ (kept ++ e ∷ [])) in
      elim (Bool-cases (leb e.deadline now)) [
        | inl due ↦
            let ih =
              drain-dues (with_buckets w popped) slot now es kept (out ++ e ∷ [])
                (rw (length-set bk slot (es ++ kept)) h) (get_or-set_self bk slot (es ++ kept) [] h)
                (Placed-resize w slot popped es (length-set bk slot (es ++ kept)) p.1) in
            rw (b, due)
              (ih
                ∙ ap (λ q. some (with_buckets w q, (out ++ e ∷ []) ++ dues now es))
                    (set-set bk slot (es ++ kept) (kept ++ later now es))
                ∙ ap (λ o. some (with_buckets w (set bk slot (kept ++ later now es)), o))
                    (append_assoc out (e ∷ []) (dues now es)))
        | inr early ↦
            let back : schedule (with_buckets w popped) e ≡ with_buckets w put_back =
              schedule_back w slot e (es ++ kept) h p.0
              ∙ ap (λ q. with_buckets w (set bk slot q)) (append_assoc es kept (e ∷ [])) in
            let ih =
              drain-dues (with_buckets w put_back) slot now es (kept ++ e ∷ []) out
                (rw (length-set bk slot (es ++ (kept ++ e ∷ []))) h)
                (get_or-set_self bk slot (es ++ (kept ++ e ∷ [])) [] h)
                (Placed-resize w slot put_back es (length-set bk slot (es ++ (kept ++ e ∷ [])))
                  p.1) in
            rw (b, early, back)
              (ih
                ∙ ap (λ q. some (with_buckets w q, out ++ dues now es))
                    (set-set bk slot (es ++ (kept ++ e ∷ [])) ((kept ++ e ∷ []) ++ later now es))
                ∙ ap (λ q. some (with_buckets w (set bk slot q), out ++ dues now es))
                    (append_assoc kept (e ∷ []) (later now es)))
      ]
