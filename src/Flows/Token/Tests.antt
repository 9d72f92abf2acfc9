-- ===== src/Flows/Token/Tests.antt =====
-- Tokens packed and unpacked on concrete ids.
use yayatht.Base.{ℕ, ◌+◌, ◌*◌, ◌^◌, ◌<◌}
use yayatht.Base.{◌≡◌, refl, true}
use yayatht.Base.{some, arith}
use yayatht.Flows.Token.{FlowId, timer, flow, resource_of, decode, decode_rest, flow_of}
use yayatht.Flows.Token.Laws.{decode-flow, flow-decode}

abbrev third : FlowId
third = record { slot = 3; generation = 7 }

abbrev beyond : FlowId
beyond = record { slot = 2 ^ 20; generation = 7 }

abbrev third_token : ℕ
third_token = 7 * 2 ^ 32 + 1 * 2 ^ 27 + 3 * 2 ^ 20 + 3

decode-flow_example :
    let id = third in
    let r = timer in
    let side = true in
    (raw : ℕ) × (flow id r side ≡ some raw)
    × (raw < 2 ^ 64)
    × (decode raw ≡ some (some id, r, side))
decode-flow_example = decode-flow third timer true (omega arith) (omega arith) (omega arith)

flow-decode_example :
    let id = third in
    let r = timer in let side = true in let raw = third_token in flow id r side ≡ some raw
unfolding decode decode_rest resource_of flow_of
flow-decode_example = flow-decode third_token third timer true (omega arith) refl
