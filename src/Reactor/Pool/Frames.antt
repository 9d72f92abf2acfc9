-- ===== src/Reactor/Pool/Frames.antt =====
-- The pool hands every frame out once and takes it back once.
use yayatht.Base.{ℕ, zero, suc, ◌+◌, ◌≤◌, ◌<◌}
use yayatht.Base.{◌≡◌, refl, ap, subst, ◌∙◌, ◌≢◌}
use yayatht.Base.{Option, none, some, List, [], ◌∷◌, arith, ltb, if◌then◌else◌}
use yayatht.Base.{
  length, get_elem?, set, replicate, get_elem?-set_self, get_elem?-set_ne, get_elem?-lt, set-set,
  set_same,
}
use yayatht.Base.{ℕ_discrete}
use yayatht.Flows.Table.Inv.{count, count-range}
use yayatht.Flows.Table.{range_from}
use yayatht.Reactor.Pool.{
  FrameBuffer, new_buffer, BufferPool, new, take_out, acquire_from, acquire, put_back, release,
  available,
}

abbrev pub in_pool : Option (Option FrameBuffer) → ℕ
in_pool none = 0
in_pool (some none) = 0
in_pool (some (some buffer)) = 1

-- The free stack names exactly the frames that are in the pool, each once.
unfoldable pub Inv : BufferPool → Type 0
Inv p = (index : ℕ) → count index p.free ≡ in_pool (get_elem? p.buffers index)

get-replicate :
    (n s : ℕ) (b : Option FrameBuffer)
    → get_elem? (replicate n b) s ≡ (if ltb s n then some b else none)
get-replicate zero s b = ground arith
get-replicate (suc n) zero b = ground arith
get-replicate (suc n) (suc s) b = ground (arith, get-replicate n s b)

set-Inv :
    (p : BufferPool) (index : ℕ) (entry : Option FrameBuffer) (free : List ℕ)
    → index < length p.buffers
    → Inv p
    → count index free ≡ in_pool (some entry)
    → ((s : ℕ) → index ≢ s → count s free ≡ count s p.free)
    → Inv (record { buffers = set p.buffers index entry; free = free })
unfolding Inv
set-Inv p index entry free h v here there = λ s. elim (ℕ_discrete index s) [
  | yes q ↦
      subst (λ j. count j free ≡ in_pool (get_elem? (set p.buffers index entry) j)) q
        (rw (get_elem?-set_self p.buffers index entry h) here)
  | no q ↦ rw (get_elem?-set_ne p.buffers index s entry q) (there s q ∙ v s)
]

in_pool-cases :
    (o : Option (Option FrameBuffer)) → 1 ≤ in_pool o → (b : FrameBuffer) × (o ≡ some (some b))
in_pool-cases none h = absurd (omega arith)
in_pool-cases (some none) h = absurd (omega arith)
in_pool-cases (some (some b)) h = (b, refl)

length-range : (first n : ℕ) → length (range_from first n) ≡ n
length-range first zero = refl
length-range first (suc n) = ap suc (length-range (suc first) n)

not_taken :
    (p : BufferPool) (index : ℕ) (buffer : FrameBuffer) (o : Option (Option FrameBuffer))
    → o ≢ some none
    → put_back p index buffer o ≡ none
unfolding put_back
not_taken p index buffer none h = refl
not_taken p index buffer (some none) h = absurd (h refl)
not_taken p index buffer (some (some b)) h = refl

-- A frame that was handed out: it is out of the pool, which is in order, and can be put back there.
pub record Acquired (p : BufferPool) (returned : Option (Option (ℕ × FrameBuffer) × BufferPool))
    : Type 0 where
  pub index : ℕ
  pub buffer : FrameBuffer
  pub after : BufferPool
  pub returns : returned ≡ some (some (index, buffer), after)
  pub was : get_elem? p.buffers index ≡ some (some buffer)
  pub out : get_elem? after.buffers index ≡ some none
  pub fewer : available after + 1 ≡ available p
  pub after_Inv : Inv after

abbrev pub Outcome : BufferPool → List ℕ → Option (Option (ℕ × FrameBuffer) × BufferPool) → Type 0
Outcome p [] returned = returned ≡ some (none, p)
Outcome p (index ∷ free) returned = Acquired p returned

acquire_from-Outcome :
    (p : BufferPool) (free : List ℕ) → p.free ≡ free → Inv p → Outcome p free (acquire_from p free)
unfolding acquire_from take_out Inv
acquire_from-Outcome p [] e v = refl
acquire_from-Outcome p (index ∷ free) e v =
    let (buffer, was) = in_pool-cases (get_elem? p.buffers index) (ground (arith, v index, e)) in
    let inside = get_elem?-lt p.buffers index (some buffer) was in
    record {
      index = index;
      buffer = buffer;
      after = record { buffers = set p.buffers index none; free = free };
      returns = rw was refl;
      was = was;
      out = get_elem?-set_self p.buffers index none inside;
      fewer = omega (arith, ap length e);
      after_Inv =
          unfold Inv in
          (set-Inv p index none free inside v (ground (arith, v index, was, e))
            (λ s q. ground (arith, e)));
    }

-- On a pool in order `acquire` returns no frame exactly when none is free; else it hands out a frame
-- that was in the pool and leaves the pool in order without it.
pub acquire-Outcome : (p : BufferPool) → Inv p → Outcome p p.free (acquire p)
unfolding acquire
acquire-Outcome p v = acquire_from-Outcome p p.free refl v

-- A frame that goes back where it was taken leaves the pool in order with one more frame, and is the
-- next that is handed out; a frame where one is, or out of range, is a failed assertion.
pub acquire-release :
    (p : BufferPool) (index : ℕ) (buffer : FrameBuffer)
    → Inv p
    → (get_elem? p.buffers index ≡ some none
        → (q : BufferPool) × (release p index buffer ≡ some q)
          × Inv q
          × (available q ≡ available p + 1)
          × (acquire q ≡ some (some (index, buffer), p)))
      × (get_elem? p.buffers index ≢ some none → release p index buffer ≡ none)
unfolding release put_back acquire acquire_from take_out Inv
acquire-release p index buffer v = (
  λ gone.
      let inside = get_elem?-lt p.buffers index none gone in
      let q : BufferPool = record {
        buffers = set p.buffers index (some buffer);
        free = index ∷ p.free;
      } in
      let hit = get_elem?-set_self p.buffers index (some buffer) inside in
      (
        q,
        rw gone refl,
        set-Inv p index (some buffer) (index ∷ p.free) inside v (ground (arith, v index, gone))
            (λ s q. ground arith),
        omega arith,
        rw hit (
            ap (λ b. some (some (index, buffer), record { buffers = b; free = p.free }))
              (set-set p.buffers index (some buffer) none ∙ set_same p.buffers index none gone)),
      ),
  λ there. not_taken p index buffer (get_elem? p.buffers index) there,
)

-- A new pool is in order and has all its frames free.
pub new-Inv :
    (n frame_capacity : ℕ) → Inv (new n frame_capacity) × (available (new n frame_capacity) ≡ n)
unfolding Inv
new-Inv n frame_capacity = (
  λ s. ground (arith, count-range s 0 n, get-replicate n s (some (new_buffer frame_capacity))),
  length-range 0 n,
)
