-- ===== src/Tcp/Timer/Rests.antt =====
-- Entries that rest in their slots, counted, and the order of ticks.
use yayatht.Base.{ℕ, zero, suc, ◌+◌, ◌-◌, ◌/◌, ◌%◌, ◌≤◌, ◌<◌, max}
use yayatht.Base.{◌≡◌, ap, ◌∙◌, ◌≢◌, ◌⊎◌, inl, inr, Bool}
use yayatht.Base.{List, [], ◌∷◌, ◌++◌, arith, ltb, leb, if◌then◌else◌, Bool-cases, if-cases}
use yayatht.Base.{length, get_or, set, All}
use yayatht.Base.{ℕ_discrete}
use yayatht.Base.{u64_max}
use native.Mathlib.Nat.{div-mul-le_self, le-div_iff_mul-le}
use yayatht.Tcp.Timer.{TimerEntry, TimerWheel, ticks, slot_of}
use yayatht.Tcp.Timer.Drain.{dues, later, Placed}

module _ {ℓ} {T : Type ℓ} where
  abbrev pub count : (TimerEntry T → Bool) → List (TimerEntry T) → ℕ
  count p [] = 0
  count p (e ∷ es) = (if p e then 1 else 0) + count p es

  -- How many entries of the wheel a test holds of.
  abbrev pub total : (TimerEntry T → Bool) → List (List (TimerEntry T)) → ℕ
  total p [] = 0
  total p (es ∷ buckets) = count p es + total p buckets

  abbrev pub IsDue : ℕ → TimerEntry T → Type 0
  IsDue now e = e.deadline ≤ now

  -- An entry in its slot, that is due only if its tick came before c or comes from d on.
  abbrev pub Rests : TimerWheel T → ℕ → ℕ → ℕ → ℕ → TimerEntry T → Type 0
  Rests w now c d slot e =
      (slot_of w e ≡ slot)
      × (e.deadline ≤ now → (ticks w e.deadline < c) ⊎ (d ≤ ticks w e.deadline))

  -- A wheel with buckets whose entries stand in their slots.
  pub record Inv (w : TimerWheel T) : Type ℓ where
    pub some_bucket : 1 ≤ length w.buckets
    pub placed : (slot : ℕ) → Placed w slot (get_or w.buckets slot [])

  pub count-append :
      (p : TimerEntry T → Bool) (xs ys : List (TimerEntry T))
      → count p (xs ++ ys) ≡ count p xs + count p ys
  count-append p [] ys = omega arith
  count-append p (x ∷ xs) ys = omega (arith, count-append p xs ys)

  pub count-split :
      (p : TimerEntry T → Bool) (now : ℕ) (es : List (TimerEntry T))
      → count p (dues now es) + count p (later now es) ≡ count p es
  count-split p now [] = omega arith
  count-split p now (e ∷ es) = ground (arith, count-split p now es)

  pub total-set :
      (p : TimerEntry T → Bool) (buckets : List (List (TimerEntry T))) (i : ℕ)
      (es : List (TimerEntry T))
      → i < length buckets
      → total p (set buckets i es) + count p (get_or buckets i []) ≡ total p buckets + count p es
  total-set p [] i es h = absurd (omega arith)
  total-set p (b ∷ buckets) zero es h = omega arith
  total-set p (b ∷ buckets) (suc i) es h = omega (arith, total-set p buckets i es (omega arith))

  pub All-dues :
      (now : ℕ) (out es : List (TimerEntry T))
      → All (IsDue now) out
      → All (IsDue now) (out ++ dues now es)
  All-dues now [] [] a = tt
  All-dues now [] (e ∷ es) a =
      if-cases (All (IsDue now)) (leb e.deadline now) (λ t. (ground arith, All-dues now [] es tt))
        (λ t. All-dues now [] es tt)
  All-dues now (o ∷ out) es a = (a.0, All-dues now out es a.1)

  pub later-Rests :
      (w : TimerWheel T) (now c d d' slot : ℕ) (es : List (TimerEntry T))
      → All (Rests w now c d slot) es
      → All (Rests w now c d' slot) (later now es)
  later-Rests w now c d d' slot [] a = tt
  later-Rests w now c d d' slot (e ∷ es) a =
      if-cases (All (Rests w now c d' slot)) (leb e.deadline now)
        (λ t. later-Rests w now c d d' slot es a.1)
        (λ t. ((a.0.0, λ due. absurd (ground arith)), later-Rests w now c d d' slot es a.1))

  -- Past the slot of the cursor, an entry of another slot is not of the cursor's tick.
  pub next-Rests :
      (w : TimerWheel T) (now c d slot : ℕ) (es : List (TimerEntry T))
      → d % length w.buckets ≢ slot
      → All (Rests w now c d slot) es
      → All (Rests w now c (d + 1) slot) es
  next-Rests w now c d slot [] ne a = tt
  next-Rests w now c d slot (e ∷ es) ne a = (
    (
      a.0.0,
      λ due. elim (a.0.1 due) [
        | inl before ↦ inl before
        | inr from ↦ elim (ℕ_discrete d (ticks w e.deadline)) [
          | yes q ↦ absurd (ne (ap (λ x. x % length w.buckets) q ∙ a.0.0))
          | no q ↦ inr (omega (arith, q))
        ]
      ],
    ),
    next-Rests w now c d slot es ne a.1,
  )

  pub resize-Rests :
      (w : TimerWheel T) (now c d slot cursor : ℕ) (buckets : List (List (TimerEntry T)))
      (es : List (TimerEntry T))
      → length buckets ≡ length w.buckets
      → All (Rests w now c d slot) es
      → All (Rests (record w { buckets = buckets; cursor = cursor }) now c d slot) es
  resize-Rests w now c d slot cursor buckets [] h a = tt
  resize-Rests w now c d slot cursor buckets (e ∷ es) h a =
      ((rw h a.0.0, a.0.1), resize-Rests w now c d slot cursor buckets es h a.1)

  pub Rests-Placed :
      (w : TimerWheel T) (now c d slot : ℕ) (es : List (TimerEntry T))
      → All (Rests w now c d slot) es
      → Placed w slot es
  Rests-Placed w now c d slot [] a = tt
  Rests-Placed w now c d slot (e ∷ es) a = (a.0.0, Rests-Placed w now c d slot es a.1)

  abbrev pub AllRest : TimerWheel T → ℕ → ℕ → ℕ → Type 0
  AllRest w now c d = (slot : ℕ) → All (Rests w now c d slot) (get_or w.buckets slot [])

  pub start-Rests :
      (w : TimerWheel T) (now slot : ℕ) (es : List (TimerEntry T))
      → Placed w slot es
      → All (Rests w now w.cursor w.cursor slot) es
  start-Rests w now slot [] p = tt
  start-Rests w now slot (e ∷ es) p = (
    (
      p.0,
      λ due. elim (Bool-cases (ltb (ticks w e.deadline) w.cursor)) [
        | inl t ↦ inl (ground arith)
        | inr f ↦ inr (ground arith)
      ],
    ),
    start-Rests w now slot es p.1,
  )

  -- The tick of an instant that is reached is not after the tick of now.
  pub ticks_mono :
      (w : TimerWheel T) (instant now : ℕ)
      → instant ≤ now
      → (now - w.epoch) / max w.tick 1 < u64_max
      → ticks w instant ≤ ticks w now
  ticks_mono w instant now h bound =
      let d = max w.tick 1 in
      let a = instant - w.epoch in
      let le : a / d ≤ (now - w.epoch) / d =
        (le-div_iff_mul-le {k = d} {x = a / d} {y = now - w.epoch} (omega arith)).1
          (omega (arith, div-mul-le_self a d, h)) in
      omega (arith, le, bound)
