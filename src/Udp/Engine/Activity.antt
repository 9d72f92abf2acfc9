-- ===== src/Udp/Engine/Activity.antt =====
-- The datagrams of one flow: what `record_outbound` and `record_inbound` leave of it after any number
-- of them.
use yayatht.Base.{ℕ, suc, ◌+◌, ◌*◌, ◌≤◌, ◌<◌, min}
use yayatht.Base.{◌≡◌, refl, ap, subst, ◌∙◌, ◌≢◌, ◌↔◌, ◌⊎◌, false}
use yayatht.Base.{Option, some, List, [], ◌∷◌, arith}
use yayatht.Base.{u8_max}
use yayatht.Flows.Token.{FlowId}
use yayatht.Flows.Table.{same_id}
use yayatht.Flows.Table.Remove.{get-get_mut}
use yayatht.Udp.Engine.{
  Flow, Engine, TimeoutClass, dns, one_shot, stream, flow, port, duration, timeout_class,
  expires_at, sent, received, record_outbound, record_inbound,
}

-- A datagram of a flow and its time.
pub data Datagram : Type 0 where
  outbound inbound : ℕ → Datagram

abbrev pub record_all : Engine → FlowId → List Datagram → Engine
record_all e id [] = e
record_all e id (outbound now ∷ ds) = record_all (record_outbound e id now) id ds
record_all e id (inbound now ∷ ds) = record_all (record_inbound e id now) id ds

abbrev pub outs : List Datagram → ℕ
outs [] = 0
outs (outbound now ∷ ds) = suc (outs ds)
outs (inbound now ∷ ds) = outs ds

abbrev pub ins : List Datagram → ℕ
ins [] = 0
ins (outbound now ∷ ds) = ins ds
ins (inbound now ∷ ds) = suc (ins ds)

-- The time of the last datagram, if the one before was at \`start\`.
abbrev pub last_time : ℕ → List Datagram → ℕ
last_time start [] = start
last_time start (outbound now ∷ ds) = last_time now ds
last_time start (inbound now ∷ ds) = last_time now ds

-- Times that do not go back.
abbrev pub InOrder : ℕ → List Datagram → Type 0
InOrder start [] = Unit
InOrder start (outbound now ∷ ds) = (start ≤ now) × InOrder now ds
InOrder start (inbound now ∷ ds) = (start ≤ now) × InOrder now ds

-- Which flows have which class, by the target's port and the datagrams sent and received.
abbrev pub ClassOf : ℕ → ℕ → ℕ → TimeoutClass → Type 0
ClassOf port sent received dns = port ≡ 53
ClassOf port sent received stream = (port ≢ 53) × (2 ≤ sent) × (2 ≤ received)
ClassOf port sent received one_shot = (port ≢ 53) × ((sent < 2) ⊎ (received < 2))

abbrev pub seconds : TimeoutClass → ℕ
seconds dns = 15
seconds one_shot = 30
seconds stream = 120

-- The flow after the datagrams, its counts up to 255.
record Recorded (f : Flow) (ds : List Datagram) (found : Option Flow) : Type 0 where
  after : Flow
  found_is : found ≡ some after
  same_key : after.key ≡ f.key
  sent_count : after.outbound_datagrams ≡ min (f.outbound_datagrams + outs ds) u8_max
  received_count : after.inbound_datagrams ≡ min (f.inbound_datagrams + ins ds) u8_max
  last : after.last_activity ≡ last_time f.last_activity ds

recorded :
    (ds : List Datagram) (e : Engine) (id : FlowId) (f : Flow)
    → flow e id ≡ some f
    → f.outbound_datagrams ≤ u8_max
    → f.inbound_datagrams ≤ u8_max
    → Recorded f ds (flow (record_all e id ds) id)
recorded [] e id f found o i = record {
  after = f;
  found_is = found;
  same_key = refl;
  sent_count = omega (arith, o);
  received_count = omega (arith, i);
  last = refl;
}
recorded (outbound now ∷ ds) e id f found o i =
    let hit : flow (record_outbound e id now) id ≡ some (sent now f) =
      get-get_mut e.flows id (sent now) id ∙ ground (arith, found) in
    let r = recorded ds (record_outbound e id now) id (sent now f) hit (omega arith) i in
    record {
      after = r.after;
      found_is = r.found_is;
      same_key = r.same_key;
      sent_count = omega (arith, r.sent_count);
      received_count = r.received_count;
      last = r.last;
    }
recorded (inbound now ∷ ds) e id f found o i =
    let hit : flow (record_inbound e id now) id ≡ some (received now f) =
      get-get_mut e.flows id (received now) id ∙ ground (arith, found) in
    let r = recorded ds (record_inbound e id now) id (received now f) hit o (omega arith) in
    record {
      after = r.after;
      found_is = r.found_is;
      same_key = r.same_key;
      sent_count = r.sent_count;
      received_count = omega (arith, r.received_count);
      last = r.last;
    }

last_time-le : (start : ℕ) (ds : List Datagram) → InOrder start ds → start ≤ last_time start ds
last_time-le start [] o = omega arith
last_time-le start (outbound now ∷ ds) o = omega (arith, o.0, last_time-le now ds o.1)
last_time-le start (inbound now ∷ ds) o = omega (arith, o.0, last_time-le now ds o.1)

-- Two datagrams each way tell a stream, whether or not the counts stop at 255.
timeout_class-ClassOf :
    (f : Flow) (sent received : ℕ) (c : TimeoutClass)
    → f.outbound_datagrams ≡ min sent u8_max
    → f.inbound_datagrams ≡ min received u8_max
    → (timeout_class f ≡ c) ↔ ClassOf (port f.key.target) sent received c
timeout_class-ClassOf f sent received dns o i = (λ h. ground arith, λ h. ground arith)
timeout_class-ClassOf f sent received stream o i = (λ h. ground arith, λ h. ground arith)
timeout_class-ClassOf f sent received one_shot o i = (λ h. ground arith, λ h. ground arith)

expires_at-seconds :
    (f : Flow) (c : TimeoutClass)
    → timeout_class f ≡ c
    → expires_at f ≡ f.last_activity + seconds c * 1_000_000_000
expires_at-seconds f dns h = ap (λ k. f.last_activity + duration k) h
expires_at-seconds f stream h = ap (λ k. f.last_activity + duration k) h
expires_at-seconds f one_shot h = ap (λ k. f.last_activity + duration k) h

expires_at_mono :
    (f g : Flow)
    → g.key ≡ f.key
    → f.outbound_datagrams ≤ g.outbound_datagrams
    → f.inbound_datagrams ≤ g.inbound_datagrams
    → f.last_activity ≤ g.last_activity
    → expires_at f ≤ expires_at g
expires_at_mono f g same o i later = ground arith

record_all-others :
    (ds : List Datagram) (e : Engine) (id other : FlowId)
    → same_id other id ≡ false
    → flow (record_all e id ds) other ≡ flow e other
record_all-others [] e id other apart = refl
record_all-others (outbound now ∷ ds) e id other apart =
    record_all-others ds (record_outbound e id now) id other apart
    ∙ get-get_mut e.flows id (sent now) other
    ∙ rw apart refl
record_all-others (inbound now ∷ ds) e id other apart =
    record_all-others ds (record_inbound e id now) id other apart
    ∙ get-get_mut e.flows id (received now) other
    ∙ rw apart refl

-- Any datagrams of a flow that stands with counts of at most 255, recorded at times that do not go
-- back, leave the flow under its id and every other id as it was. The flow keeps its key; its counts
-- grow by the datagrams of either direction, up to 255; its last activity is the last datagram's. It
-- has the class of port 53 exactly if its target has that port, else it is a stream exactly if two
-- datagrams or more went each way, else it is one-shot; by that class it ends 15, 120 or 30 seconds
-- after its last activity, no sooner than it would have before.
pub record_all-flow :
    (e : Engine) (id : FlowId) (f : Flow) (ds : List Datagram)
    → flow e id ≡ some f
    → f.outbound_datagrams ≤ u8_max
    → f.inbound_datagrams ≤ u8_max
    → InOrder f.last_activity ds
    → let sent = f.outbound_datagrams + outs ds in
      let received = f.inbound_datagrams + ins ds in
      (g : Flow) × (flow (record_all e id ds) id ≡ some g)
      × ((other : FlowId)
          → same_id other id ≡ false
          → flow (record_all e id ds) other ≡ flow e other)
      × (g.key ≡ f.key)
      × (g.outbound_datagrams ≡ min sent u8_max)
      × (g.inbound_datagrams ≡ min received u8_max)
      × (g.last_activity ≡ last_time f.last_activity ds)
      × ((c : TimeoutClass) → (timeout_class g ≡ c) ↔ ClassOf (port f.key.target) sent received c)
      × ((c : TimeoutClass)
          → ClassOf (port f.key.target) sent received c
          → expires_at g ≡ last_time f.last_activity ds + seconds c * 1_000_000_000)
      × (expires_at f ≤ expires_at g)
record_all-flow e id f ds found o i ordered =
    let s = f.outbound_datagrams + outs ds in
    let t = f.inbound_datagrams + ins ds in
    let r = recorded ds e id f found o i in
    let class : (c : TimeoutClass)
        → (timeout_class r.after ≡ c) ↔ ClassOf (port f.key.target) s t c =
      λ c.
        subst (λ k. (timeout_class r.after ≡ c) ↔ ClassOf (port k.target) s t c) r.same_key
          (timeout_class-ClassOf r.after s t c r.sent_count r.received_count) in
    (
      r.after,
      r.found_is,
      λ other apart. record_all-others ds e id other apart,
      r.same_key,
      r.sent_count,
      r.received_count,
      r.last,
      class,
      λ c its.
          expires_at-seconds r.after c ((class c).1 its)
          ∙ ap (λ k. k + seconds c * 1_000_000_000) r.last,
      expires_at_mono f r.after r.same_key (omega (arith, o, r.sent_count))
          (omega (arith, i, r.received_count))
          (omega (arith, r.last, last_time-le f.last_activity ds ordered)),
    )
