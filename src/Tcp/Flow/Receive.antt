-- ===== src/Tcp/Flow/Receive.antt =====
-- What `receive` accepts from the namespace: exactly the next bytes in order within the promised
-- window, once.
use yayatht.Base.{ℕ, ◌+◌, ◌-◌, ◌%◌, ◌^◌, ◌≤◌, ◌<◌}
use yayatht.Base.{◌≡◌, refl, sym, ◌∙◌, ◌≢◌, ◌↔◌, Bool, true, false, ◌||◌}
use yayatht.Base.{Option, none, some, arith, if◌then◌else◌}
use yayatht.Base.{u32, add32, ◌<<<◌}
use yayatht.Tcp.Sequence.{before, after, distance}
use yayatht.Tcp.Flow.{
  Flow, advertised_window, in_order, reset, receive_data, accept_fin, take_ack, acknowledge_local,
  receive,
}
use yayatht.Tcp.Flow.Window.{EdgeAhead, advertised_window-eq}

-- Two states of a flow that agree on what was received and promised.
pub record SameReceived (f g : Flow) : Type 0 where
  pub next : g.namespace_next ≡ f.namespace_next
  pub edge : g.receive_edge ≡ f.receive_edge
  pub acked : g.namespace_acked ≡ f.namespace_acked
  pub fin : g.namespace_fin ≡ f.namespace_fin
  pub initial : g.namespace_initial ≡ f.namespace_initial
  pub submitted : g.upstream_submitted ≡ f.upstream_submitted
  pub upstream : g.upstream_acked ≡ f.upstream_acked

acknowledge_local-same : (f : Flow) (ack : ℕ) → SameReceived f (acknowledge_local f ack)
unfolding acknowledge_local
acknowledge_local-same f ack = ground arith

-- An acknowledgment changes nothing on the receiving side.
pub take_ack-same : (f : Flow) (ack : Option ℕ) → SameReceived f (take_ack f ack)
unfolding take_ack
take_ack-same f none = ground arith
take_ack-same f (some ack) = ground (arith, acknowledge_local-same f ack)

-- On a flow that expects the byte at `namespace_next`, data is in order iff it starts there and fits.
data_in_order_iff :
    (f : Flow) (seq len : ℕ) (fin : Bool)
    → advertised_window f < 2 ^ 31
    → ((receive_data f seq len fin).0 ≡ in_order len fin)
      ↔ ((seq ≡ f.namespace_next) × (len ≤ advertised_window f))
unfolding receive_data
data_in_order_iff f seq len fin h = (λ e. ground arith, λ e. ground arith)

advertised_window-same : (f g : Flow) → SameReceived f g → advertised_window g ≡ advertised_window f
unfolding advertised_window
advertised_window-same f g s = ground (arith, s)

-- The flow as `receive` looks at the data: the window update and the acknowledgment are taken in.
abbrev pub acknowledged : Flow → Option ℕ → ℕ → Flow
acknowledged f ack window =
    take_ack (record f { peer_window = u32 (window <<< f.peer_window_shift) }) ack

acknowledged-same :
    (f : Flow) (ack : Option ℕ) (window : ℕ) → SameReceived f (acknowledged f ack window)
acknowledged-same f ack window =
    ground
      (arith, take_ack-same (record f { peer_window = u32 (window <<< f.peer_window_shift) }) ack)

advertised_window-lt : (f : Flow) → EdgeAhead f → advertised_window f < 2 ^ 31
advertised_window-lt f v = omega (arith, advertised_window-eq v, v.ahead)

-- On a flow whose promised edge lies less than 2 ^ 31 beyond the next expected byte, `receive`
-- accepts a segment as in order exactly when it is no reset, starts at the next expected byte
-- and fits the promised window.
pub receive_in_order_iff :
    (f : Flow) (seq : ℕ) (ack : Option ℕ) (window len : ℕ) (fin rst : Bool)
    → EdgeAhead f
    → ((receive f seq ack window len fin rst).0 ≡ in_order len fin)
      ↔ ((rst ≡ false) × (seq ≡ f.namespace_next) × (len ≤ advertised_window f))
unfolding receive
receive_in_order_iff f seq ack window len fin true v = (λ e. cc, λ h. cc)
receive_in_order_iff f seq ack window len fin false v =
    let g = acknowledged f ack window in
    let same = acknowledged-same f ack window in
    let w = advertised_window-same f g same in
    let iff = data_in_order_iff g seq len fin (rw w (advertised_window-lt f v)) in
    (
      λ e. let (a, b) = iff.0 e in (refl, a ∙ same.next, rw w at b),
      λ h. iff.1 (h.1 ∙ sym same.next, rw w h.2),
    )

-- What a segment in order does to the receiving side.
pub record Accepted (f g : Flow) (len : ℕ) (fin : Bool) : Type 0 where
  pub next : g.namespace_next ≡ (f.namespace_next + len + (if fin then 1 else 0)) % 2 ^ 32
  pub edge : g.receive_edge ≡ f.receive_edge
  pub has_fin : g.namespace_fin ≡ (f.namespace_fin || fin)
  pub window : advertised_window g ≡ advertised_window f - (len + (if fin then 1 else 0))
  pub fits : len ≤ advertised_window f
  pub unacked : fin ≡ false → g.namespace_acked ≡ f.namespace_acked
  pub initial : g.namespace_initial ≡ f.namespace_initial
  pub submitted : g.upstream_submitted ≡ f.upstream_submitted
  pub upstream : g.upstream_acked ≡ f.upstream_acked

-- `accept_fin` moves the next expected byte past the FIN and remembers it.
accept_fin_fields :
    (f : Flow)
    → let g = accept_fin f in
      (g.namespace_next ≡ add32 f.namespace_next 1)
      × (g.receive_edge ≡ f.receive_edge)
      × (g.namespace_fin ≡ true)
      × (g.namespace_initial ≡ f.namespace_initial)
      × (g.upstream_submitted ≡ f.upstream_submitted)
      × (g.upstream_acked ≡ f.upstream_acked)
unfolding accept_fin
accept_fin_fields f = ground arith

-- Bytes that fit the window, and a FIN behind them, take as much of it.
moved_window :
    (f g : Flow) (n : ℕ)
    → EdgeAhead f
    → n ≤ advertised_window f + 1
    → g.namespace_next ≡ (f.namespace_next + n) % 2 ^ 32
    → g.receive_edge ≡ f.receive_edge
    → advertised_window g ≡ advertised_window f - n
unfolding advertised_window after before distance
moved_window f g n v h next edge = ground (arith, v.ahead)

data-Accepted :
    (f : Flow) (seq len : ℕ) (fin : Bool)
    → EdgeAhead f
    → (receive_data f seq len fin).0 ≡ in_order len fin
    → Accepted f (receive_data f seq len fin).1 len fin
data-Accepted f seq len fin v e =
    let (at, fits) = (data_in_order_iff f seq len fin (advertised_window-lt f v)).0 e in
    let (next, edge, has_fin, initial, submitted, upstream, unacked) = moved fin at fits in
    record {
      next = next;
      edge = edge;
      has_fin = has_fin;
      window =
          moved_window f (receive_data f seq len fin).1 (len + (if fin then 1 else 0)) v
            (ground arith) (omega (arith, next)) edge;
      fits = fits;
      unacked = unacked;
      initial = initial;
      submitted = submitted;
      upstream = upstream;
    }
  where
    moved :
        (b : Bool)
        → seq ≡ f.namespace_next
        → len ≤ advertised_window f
        → let g = (receive_data f seq len b).1 in
          (g.namespace_next ≡ (f.namespace_next + len + (if b then 1 else 0)) % 2 ^ 32)
          × (g.receive_edge ≡ f.receive_edge)
          × (g.namespace_fin ≡ (f.namespace_fin || b))
          × (g.namespace_initial ≡ f.namespace_initial)
          × (g.upstream_submitted ≡ f.upstream_submitted)
          × (g.upstream_acked ≡ f.upstream_acked)
          × (b ≡ false → g.namespace_acked ≡ f.namespace_acked)
    moved true at fits =
        unfold receive_data in
        ground (
          arith,
          accept_fin_fields (record f { namespace_next = add32 f.namespace_next len }),
          advertised_window-lt f v,
        )
    moved false at fits =
        unfold receive_data in ground (arith, advertised_window-lt f v, v.next_word)

data-refused :
    (f : Flow) (seq len : ℕ) (fin : Bool)
    → (receive_data f seq len fin).0 ≢ in_order len fin
    → SameReceived f (receive_data f seq len fin).1
unfolding receive_data
data-refused f seq len fin ne = ground arith

pub EdgeAhead-same : (f g : Flow) → SameReceived f g → EdgeAhead f → EdgeAhead g
EdgeAhead-same f g s v = record {
  next_word = rw s.next v.next_word;
  edge_word = rw s.edge v.edge_word;
  ahead = rw (s.next, s.edge) v.ahead;
}

reset-ne : {len : ℕ} {fin : Bool} → ¬ (reset ≡ in_order len fin)
reset-ne e = cc

Accepted-same :
    (f g h : Flow) (len : ℕ) (fin : Bool)
    → SameReceived f g
    → Accepted g h len fin
    → Accepted f h len fin
Accepted-same f g h len fin s a = record {
  next = rw (← s.next) a.next;
  edge = a.edge ∙ s.edge;
  has_fin = rw (← s.fin) a.has_fin;
  window = rw (← advertised_window-same f g s) a.window;
  fits = rw (← advertised_window-same f g s) a.fits;
  unacked = λ e. a.unacked e ∙ s.acked;
  initial = a.initial ∙ s.initial;
  submitted = a.submitted ∙ s.submitted;
  upstream = a.upstream ∙ s.upstream;
}

SameReceived-trans : (f g h : Flow) → SameReceived f g → SameReceived g h → SameReceived f h
SameReceived-trans f g h s t = ground arith

-- On a flow whose promised edge lies less than 2 ^ 31 beyond the next expected byte, a segment
-- in order moves the next expected byte by its payload and its FIN, takes as much of the
-- promised window, and moves no edge. Any other segment, a duplicate above all, changes nothing
-- on the receiving side.
pub receive_lem :
    (f : Flow) (seq : ℕ) (ack : Option ℕ) (window len : ℕ) (fin rst : Bool)
    → EdgeAhead f
    → let (d, g) = receive f seq ack window len fin rst in
      (d ≡ in_order len fin → Accepted f g len fin) × (d ≢ in_order len fin → SameReceived f g)
unfolding receive
receive_lem f seq ack window len fin true v = (λ e. absurd (reset-ne e), λ ne. ground arith)
receive_lem f seq ack window len fin false v =
    let g = acknowledged f ack window in
    let same = acknowledged-same f ack window in
    (
      λ e.
          Accepted-same f g (receive_data g seq len fin).1 len fin same
            (data-Accepted g seq len fin (EdgeAhead-same f g same v) e),
      λ ne.
          SameReceived-trans f g (receive_data g seq len fin).1 same
            (data-refused g seq len fin ne),
    )
