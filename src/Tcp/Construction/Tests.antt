-- ===== src/Tcp/Construction/Tests.antt =====
-- A construction in order, with a call too early.
use yayatht.Base.{◌≡◌}
use yayatht.Base.{some, List, [], ◌∷◌}
use yayatht.Net.{v4}
use yayatht.Tcp.Construction.{
  FlowInterface, FlowSide, FlowType, new_construction, activate, active_sides,
}
use yayatht.Tcp.Construction.Order.{
  Call, run, Stage, advance_all, represent, sides_at, activation_at, run-refines,
}

abbrev side : FlowSide
side = record {
  interface = FlowInterface.host_socket;
  local_endpoint = v4 (127 ∷ 0 ∷ 0 ∷ 1 ∷ []) 80;
  logical_peer = v4 (10 ∷ 0 ∷ 0 ∷ 2 ∷ []) 5000;
  transport_peer = v4 (10 ∷ 0 ∷ 0 ∷ 2 ∷ []) 5000;
}

abbrev some_calls : List Call
some_calls =
    Call.targets side
    ∷ Call.initiates side
    ∷ Call.targets side
    ∷ Call.types FlowType.tcp
    ∷ Call.activates
    ∷ []

run-refines_example :
    let calls = some_calls in
    let c = run new_construction calls in
    let s = advance_all Stage.blank calls in
    (c ≡ represent s) × ((activate c).0 ≡ activation_at s) × (active_sides c ≡ some (sides_at s))
run-refines_example = run-refines some_calls
