-- ===== src/Tcp/Construction/Order.antt =====
-- The order of construction: the reachable states are five stages, whatever is called when.
use yayatht.Base.{◌≡◌, refl}
use yayatht.Base.{Option, none, some, List, [], ◌∷◌}
use yayatht.Tcp.Construction.{
  FlowSide, FlowSides, FlowType, tcp, new, initiated, targeted, typed, active, FlowConstruction,
  Outcome, ok, err, new_construction, set_initiating, set_target, set_type, activate, active_sides,
}

pub data Call : Type 0 where
  initiates targets : FlowSide → Call
  types : FlowType → Call
  activates : Call

pub step : FlowConstruction → Call → FlowConstruction
step c (initiates side) = (set_initiating c side).1
step c (targets side) = (set_target c side).1
step c (types t) = (set_type c t).1
step c activates = (activate c).1

pub run : FlowConstruction → List Call → FlowConstruction
run c [] = c
run c (call ∷ calls) = run (step c call) calls

-- What a construction can have been told, in order.
pub data Stage : Type 0 where
  blank : Stage
  from : FlowSide → Stage
  between ready open_between : FlowSide → FlowSide → Stage

-- A call counts at its own stage only.
abbrev pub advance : Stage → Call → Stage
advance blank (initiates i) = from i
advance (from i) (targets t) = between i t
advance (between i t) (types k) = ready i t
advance (ready i t) activates = open_between i t
advance s _ = s

abbrev pub advance_all : Stage → List Call → Stage
advance_all s [] = s
advance_all s (call ∷ calls) = advance_all (advance s call) calls

abbrev pub represent : Stage → FlowConstruction
represent blank = record { state = new; initiating = none; target = none; flow_type = none }
represent (from i) = record {
  state = initiated;
  initiating = some i;
  target = none;
  flow_type = none;
}
represent (between i t) = record {
  state = targeted;
  initiating = some i;
  target = some t;
  flow_type = none;
}
represent (ready i t) = record {
  state = typed;
  initiating = some i;
  target = some t;
  flow_type = some tcp;
}
represent (open_between i t) = record {
  state = active;
  initiating = some i;
  target = some t;
  flow_type = some tcp;
}

abbrev pub sides_at : Stage → Option FlowSides
sides_at (open_between i t) = some (record { initiating = i; target = t })
sides_at _ = none

-- The result of `activate` at a stage.
abbrev pub activation_at : Stage → Outcome FlowSides
activation_at (ready i t) = ok (record { initiating = i; target = t })
activation_at s = err (represent s).state

step-represent : (s : Stage) (call : Call) → step (represent s) call ≡ represent (advance s call)
unfolding step set_initiating set_target set_type activate
step-represent blank (initiates i) = refl
step-represent blank (targets t) = refl
step-represent blank (types tcp) = refl
step-represent blank activates = refl
step-represent (from i) (initiates j) = refl
step-represent (from i) (targets t) = refl
step-represent (from i) (types tcp) = refl
step-represent (from i) activates = refl
step-represent (between i t) (initiates j) = refl
step-represent (between i t) (targets u) = refl
step-represent (between i t) (types tcp) = refl
step-represent (between i t) activates = refl
step-represent (ready i t) (initiates j) = refl
step-represent (ready i t) (targets u) = refl
step-represent (ready i t) (types tcp) = refl
step-represent (ready i t) activates = refl
step-represent (open_between i t) (initiates j) = refl
step-represent (open_between i t) (targets u) = refl
step-represent (open_between i t) (types tcp) = refl
step-represent (open_between i t) activates = refl

run-represent :
    (s : Stage) (calls : List Call) → run (represent s) calls ≡ represent (advance_all s calls)
unfolding run
run-represent s [] = refl
run-represent s (call ∷ calls) = rw (step-represent s call) (run-represent (advance s call) calls)

active_sides-represent : (s : Stage) → active_sides (represent s) ≡ some (sides_at s)
unfolding active_sides
active_sides-represent blank = refl
active_sides-represent (from i) = refl
active_sides-represent (between i t) = refl
active_sides-represent (ready i t) = refl
active_sides-represent (open_between i t) = refl

activate-represent : (s : Stage) → (activate (represent s)).0 ≡ activation_at s
unfolding activate
activate-represent blank = refl
activate-represent (from i) = refl
activate-represent (between i t) = refl
activate-represent (ready i t) = refl
activate-represent (open_between i t) = refl

-- After any sequence of calls on a new construction, in any order, no `expect` fails: the next
-- `activate` returns the sides exactly at the stage where both sides and then the type were
-- accepted, and the state as an error at every other, and `active_sides` returns the sides exactly
-- when the construction is active, as first accepted.
pub run-refines :
    (calls : List Call)
    → let c = run new_construction calls in
      let s = advance_all blank calls in
      (c ≡ represent s) × ((activate c).0 ≡ activation_at s) × (active_sides c ≡ some (sides_at s))
unfolding new_construction
run-refines calls = (
  run-represent blank calls,
  rw (run-represent blank calls) (activate-represent (advance_all blank calls)),
  rw (run-represent blank calls) (active_sides-represent (advance_all blank calls)),
)
