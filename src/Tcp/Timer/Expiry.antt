-- ===== src/Tcp/Timer/Expiry.antt =====
-- `expire`: nothing is lost, only due entries come out, and every due entry whose tick the cursor has
-- not passed comes out.
use yayatht.Base.{ℕ, zero, suc, ◌+◌, ◌-◌, ◌/◌, ◌%◌, ◌≤◌, ◌<◌, min, max}
use yayatht.Base.{◌≡◌, refl, sym, subst, ◌∙◌, inl, inr, Bool}
use yayatht.Base.{some, List, [], ◌∷◌, ◌++◌, arith}
use yayatht.Base.{length, get_or, set, All, length-set, append_nil}
use yayatht.Base.{ℕ_discrete}
use yayatht.Base.{u64_max}
use yayatht.Tcp.Timer.{TimerEntry, TimerWheel, ticks, expire_from, expire}
use yayatht.Tcp.Timer.Rests.{
  count, total, IsDue, Rests, Inv, count-append, count-split, total-set, All-dues, later-Rests,
  next-Rests, resize-Rests, Rests-Placed, AllRest, start-Rests, ticks_mono,
}
use yayatht.Tcp.Timer.Drain.{dues, later, drain-dues, get_or-set_self, get_or-set_ne}

module _ {ℓ} {T : Type ℓ} where
  -- The rounds of `expire` for the ticks from the cursor on.
  pub record Swept (w : TimerWheel T) (now c rounds : ℕ) (out : List (TimerEntry T)) : Type ℓ where
    pub after : TimerWheel T
    pub out_after : List (TimerEntry T)
    pub returns : expire_from rounds w now out ≡ some (after, out_after)
    pub same_clock : (after.epoch ≡ w.epoch) × (after.tick ≡ w.tick)
    pub same_size : length after.buckets ≡ length w.buckets
    pub passed : after.cursor ≡ w.cursor + rounds
    pub all_due : All (IsDue now) out → All (IsDue now) out_after
    pub conserved :
        (p : TimerEntry T → Bool)
        → count p out_after + total p after.buckets ≡ count p out + total p w.buckets
    pub rests : AllRest after now c after.cursor

  sweep :
      (rounds : ℕ) (w : TimerWheel T) (now c : ℕ) (out : List (TimerEntry T))
      → 1 ≤ length w.buckets
      → w.cursor + rounds ≤ u64_max
      → AllRest w now c w.cursor
      → Swept w now c rounds out
  unfolding expire_from
  sweep zero w now c out n r a = record {
    after = w;
    out_after = out;
    returns = refl;
    same_clock = (refl, refl);
    same_size = refl;
    passed = omega arith;
    all_due = λ d. d;
    conserved = λ p. refl;
    rests = a;
  }
  sweep (suc rounds) w now c out n r a =
      let slot = w.cursor % length w.buckets in
      let inside : slot < length w.buckets = omega (arith, n) in
      let es = get_or w.buckets slot [] in
      let buckets = set w.buckets slot (later now es) in
      let size : length buckets ≡ length w.buckets = length-set w.buckets slot (later now es) in
      let drained =
        drain-dues w slot now es [] out inside (sym (append_nil es))
          (Rests-Placed w now c w.cursor slot es (a slot)) in
      let here : min (w.cursor + 1) u64_max ≡ w.cursor + 1 = omega (arith, r) in
      let next : TimerWheel T = record w {
        buckets = buckets;
        cursor = min (w.cursor + 1) u64_max;
      } in
      let rests : AllRest next now c next.cursor = λ s.
        subst (λ d. All (Rests next now c d s) (get_or buckets s [])) (sym here)
          (resize-Rests w now c (w.cursor + 1) s (min (w.cursor + 1) u64_max) buckets
            (get_or buckets s []) size
            (elim (ℕ_discrete slot s) [
              | yes q ↦
                  subst (λ j. All (Rests w now c (w.cursor + 1) j) (get_or buckets j [])) q
                    (rw (get_or-set_self w.buckets slot (later now es) [] inside)
                      (later-Rests w now c w.cursor (w.cursor + 1) slot es (a slot)))
              | no q ↦
                  rw (get_or-set_ne w.buckets slot s (later now es) [] q)
                    (next-Rests w now c w.cursor s (get_or w.buckets s []) q (a s))
            ])) in
      let s =
        sweep rounds next now c (out ++ dues now es) (rw size n) (omega (arith, r, here)) rests in
      record {
        after = s.after;
        out_after = s.out_after;
        returns = rw drained s.returns;
        same_clock = s.same_clock;
        same_size = s.same_size ∙ size;
        passed = omega (arith, s.passed, here);
        all_due = λ d. s.all_due (All-dues now out es d);
        conserved = λ p. omega (
          arith,
          s.conserved p,
          count-append p out (dues now es),
          count-split p now es,
          total-set p w.buckets slot (later now es) inside,
        );
        rests = s.rests;
      }

  -- What is left of a bucket is due only if its tick came before the cursor.
  abbrev pub Missed : ℕ → TimerWheel T → TimerEntry T → Type 0
  Missed now w e = e.deadline ≤ now → ticks w e.deadline < w.cursor

  missed :
      (w after : TimerWheel T) (now slot : ℕ) (es : List (TimerEntry T))
      → (after.epoch ≡ w.epoch) × (after.tick ≡ w.tick)
      → ticks w now < after.cursor
      → (now - w.epoch) / max w.tick 1 < u64_max
      → All (Rests after now w.cursor after.cursor slot) es
      → All (Missed now w) es
  missed w after now slot [] clock passed bound a = tt
  missed w after now slot (e ∷ es) clock passed bound a =
      let same : ticks after e.deadline ≡ ticks w e.deadline = rw (clock.0, clock.1) refl in
      (
        λ due. elim (a.0.1 due) [
          | inl before ↦ omega (arith, before, same)
          | inr from ↦
              absurd (omega (arith, from, same, passed, ticks_mono w e.deadline now due bound))
        ],
        missed w after now slot es clock passed bound a.1,
      )

  pub record Expired (w : TimerWheel T) (now : ℕ) (out : List (TimerEntry T)) : Type ℓ where
    pub after : TimerWheel T
    pub out_after : List (TimerEntry T)
    pub returns : expire w now out ≡ some (after, out_after)
    pub after_Inv : Inv after
    pub conserved :
        (p : TimerEntry T → Bool)
        → count p out_after + total p after.buckets ≡ count p out + total p w.buckets
    pub all_due : All (IsDue now) out → All (IsDue now) out_after
    pub none_missed : (slot : ℕ) → All (Missed now w) (get_or after.buckets slot [])

  -- On a wheel whose entries stand in their slots, before the tick 2 ^ 64 - 1, `expire` returns, with
  -- no failed `expect`, and leaves the entries in their slots. Every entry is afterwards in the output or
  -- in the wheel, as often as before; the output gains due entries only; and an entry that stays is due
  -- only if its tick came before the cursor, so every due entry from the cursor's tick on comes out.
  pub expire-Expired :
      (w : TimerWheel T) (now : ℕ) (out : List (TimerEntry T))
      → Inv w
      → (now - w.epoch) / max w.tick 1 < u64_max
      → w.cursor ≤ u64_max
      → Expired w now out
  unfolding expire
  expire-Expired w now out v bound small =
      let rounds = ticks w now + 1 - w.cursor in
      let s =
        sweep rounds w now w.cursor out v.some_bucket (omega (arith, bound, small))
          (λ slot. start-Rests w now slot (get_or w.buckets slot []) (v.placed slot)) in
      record {
        after = s.after;
        out_after = s.out_after;
        returns = s.returns;
        after_Inv = record {
          some_bucket = rw s.same_size v.some_bucket;
          placed = λ slot.
              Rests-Placed s.after now w.cursor s.after.cursor slot (get_or s.after.buckets slot [])
                (s.rests slot);
        };
        conserved = s.conserved;
        all_due = s.all_due;
        none_missed = λ slot.
            missed w s.after now slot (get_or s.after.buckets slot []) s.same_clock
              (omega (arith, s.passed)) bound (s.rests slot);
      }
