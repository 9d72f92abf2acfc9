-- ===== src/Tcp/Timer/Start.antt =====
-- A new wheel, and an entry that is scheduled.
use yayatht.Base.{ℕ, zero, suc, ◌≤◌, ◌<◌}
use yayatht.Base.{◌≡◌, refl, sym, subst}
use yayatht.Base.{none, some, List, [], ◌∷◌, ◌++◌, arith}
use yayatht.Base.{length, get_or, set, replicate, length-set, length-replicate}
use yayatht.Base.{ℕ_discrete}
use yayatht.Tcp.Timer.{TimerEntry, TimerWheel, new, slot_of, schedule}
use yayatht.Tcp.Timer.Drain.{Placed, Placed-resize, get_or-set_self, get_or-set_ne}
use yayatht.Tcp.Timer.Rests.{Inv}

module _ {ℓ} {T : Type ℓ} where
  abbrev no_entries : List (TimerEntry T)
  no_entries = []

  empty_bucket : (n slot : ℕ) → get_or (replicate n no_entries) slot no_entries ≡ no_entries
  empty_bucket zero slot = refl
  empty_bucket (suc n) zero = refl
  empty_bucket (suc n) (suc slot) = empty_bucket n slot

  -- A wheel is made of at least one bucket, empty and with its cursor at the first tick; of none it is
  -- refused.
  pub new-Inv :
      (epoch tick buckets : ℕ)
      → (1 ≤ buckets
          → (w : TimerWheel T) × (new epoch tick buckets ≡ some w)
            × Inv w
            × (w.cursor ≡ 0)
            × (length w.buckets ≡ buckets))
        × (buckets ≡ 0 → new {T = T} epoch tick buckets ≡ none)
  unfolding new
  new-Inv epoch tick buckets = (
    λ h.
        let w : TimerWheel T = record {
          epoch = epoch;
          tick = tick;
          cursor = 0;
          buckets = replicate buckets [];
        } in
        (
          w,
          ground arith,
          record {
            some_bucket = rw (length-replicate buckets no_entries) h;
            placed = λ slot. subst (Placed w slot) (sym (empty_bucket buckets slot)) tt;
          },
          refl,
          length-replicate buckets no_entries,
        ),
    λ z. ground arith,
  )

  Placed-append :
      (w : TimerWheel T) (slot : ℕ) (es : List (TimerEntry T)) (e : TimerEntry T)
      → Placed w slot es
      → slot_of w e ≡ slot
      → Placed w slot (es ++ e ∷ [])
  Placed-append w slot [] e p h = (h, tt)
  Placed-append w slot (x ∷ es) e p h = (p.0, Placed-append w slot es e p.1 h)

  -- A wheel with buckets stays so under `schedule`: the entry stands in its slot with the others.
  pub schedule-Inv : (w : TimerWheel T) (e : TimerEntry T) → Inv w → Inv (schedule w e)
  schedule-Inv w e v =
      let slot = slot_of w e in
      let inside : slot < length w.buckets = omega (arith, v.some_bucket) in
      let bucket = get_or w.buckets slot [] ++ e ∷ [] in
      let buckets = set w.buckets slot bucket in
      let size : length buckets ≡ length w.buckets = length-set w.buckets slot bucket in
      record {
        some_bucket = rw size v.some_bucket;
        placed = λ s.
            Placed-resize w s buckets (get_or buckets s []) size (elim (ℕ_discrete slot s) [
              | yes q ↦
                  subst (λ j. Placed w j (get_or buckets j [])) q
                    (rw (get_or-set_self w.buckets slot bucket [] inside)
                      (Placed-append w slot (get_or w.buckets slot []) e (v.placed slot) refl))
              | no q ↦ rw (get_or-set_ne w.buckets slot s bucket [] q) (v.placed s)
            ]);
      }
