-- ===== src/Tcp/Flow/Window.antt =====
-- The receive window that a flow promises to the namespace: RFC 7323's right edge never retreats.
use yayatht.Base.{ℕ, ◌+◌, ◌*◌, ◌/◌, ◌^◌, ◌≤◌, ◌<◌, min, max}
use yayatht.Base.{◌≡◌, inl, inr, false}
use yayatht.Base.{arith, leb, if◌then◌else◌, Bool-cases}
use yayatht.Base.{u16_max, IsU32}
use native.Mathlib.Nat.{pow-le-pow_right, one-le-pow, mod-lt, div-add-mod', zero-div}
use yayatht.Tcp.Sequence.{before, after, distance}
use yayatht.Tcp.Flow.{
  Flow, advertised_window, max_advertised_window, window_field, set_advertised_window,
}

-- The promised edge lies less than 2 ^ 31 beyond the next expected byte.
pub record EdgeAhead (f : Flow) : Type 0 where
  pub next_word : IsU32 f.namespace_next
  pub edge_word : IsU32 f.receive_edge
  pub ahead : distance f.namespace_next f.receive_edge < 2 ^ 31

-- With a shift of at most 14, which RFC 7323 allows, the largest window is below 2 ^ 30.
pub max_advertised_window-lt :
    (f : Flow)
    → f.local_window_shift ≤ 14
    → (max_advertised_window f ≡ u16_max * 2 ^ f.local_window_shift)
      × (max_advertised_window f < 2 ^ 30)
unfolding max_advertised_window
max_advertised_window-lt f h = omega (arith, pow-le-pow_right {n = 2} (omega arith) h)

pub advertised_window-eq :
    {f : Flow} → EdgeAhead f → advertised_window f ≡ distance f.namespace_next f.receive_edge
unfolding advertised_window after distance
advertised_window-eq {f} v = ground arith

-- On a flow whose promised edge lies less than 2 ^ 31 beyond the next expected byte, with a
-- window shift of at most 14, `set_advertised_window` leaves the flow advertising the larger of
-- what it had promised and the budget cut to what the window field can express: the promise
-- never shrinks.
pub advertised_window-set_advertised_window :
    (f : Flow) (budget : ℕ)
    → EdgeAhead f
    → f.local_window_shift ≤ 14
    → let g = (set_advertised_window f budget).1 in
      (advertised_window g
        ≡ max (advertised_window f) (min budget (u16_max * 2 ^ f.local_window_shift)))
      × EdgeAhead g
      × (g.namespace_next ≡ f.namespace_next)
unfolding set_advertised_window advertised_window after before distance
advertised_window-set_advertised_window f budget v h =
    let (m, lt) = max_advertised_window-lt f h in ground (arith, m, lt)

mul_mono : (a b k : ℕ) → a ≤ b → a * k ≤ b * k
mul_mono a b k h = grind arith

clamp : ℕ → ℕ → ℕ
clamp room unit = if leb (room / unit) u16_max then room / unit else u16_max

clamp_bounds :
    (room unit : ℕ)
    → 0 < unit
    → (clamp room unit * unit ≤ room)
      × (room < (u16_max + 1) * unit → room < (clamp room unit + 1) * unit)
unfolding clamp
clamp_bounds room unit h =
    let whole = div-add-mod' room unit in
    let part = mod-lt room h in
    elim (Bool-cases (leb (room / unit) u16_max)) [
      | inl fits ↦ rw fits (omega (arith, whole, part), λ q. omega (arith, whole, part))
      | inr cut ↦
          rw cut (omega (arith, whole, mul_mono u16_max (room / unit) unit (ground arith)), λ q. q)
    ]

window_field-eq :
    (f : Flow)
    → IsU32 f.namespace_acked
    → IsU32 f.receive_edge
    → distance f.namespace_acked f.receive_edge < 2 ^ 31
    → window_field f false
      ≡ clamp (distance f.namespace_acked f.receive_edge) (2 ^ f.local_window_shift)
unfolding window_field clamp after before distance
window_field-eq f ha he h = ground (arith, zero-div (2 ^ f.local_window_shift))

-- The window field of a segment without SYN, scaled up again, never reaches beyond the promised
-- edge, measured from the acknowledgment point; unless it is cut to 16 bits it falls short of it by
-- less than one unit of the scale.
pub window_field_bounds :
    (f : Flow)
    → IsU32 f.namespace_acked
    → IsU32 f.receive_edge
    → distance f.namespace_acked f.receive_edge < 2 ^ 31
    → let room = distance f.namespace_acked f.receive_edge in
      (window_field f false * 2 ^ f.local_window_shift ≤ room)
      × (room < (u16_max + 1) * 2 ^ f.local_window_shift
          → room < (window_field f false + 1) * 2 ^ f.local_window_shift)
window_field_bounds f ha he h = rw (window_field-eq f ha he h) (
    clamp_bounds (distance f.namespace_acked f.receive_edge) (2 ^ f.local_window_shift)
      (one-le-pow f.local_window_shift 2 (omega arith)))
