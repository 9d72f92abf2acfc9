-- ===== src/Flows/Token.antt =====
-- Epoll tokens of crates/dataplane/src/flow_table.rs: a flow id, the resource that an event is
-- about and its side, packed into the 64 bits that epoll hands back.
use yayatht.Base.{
  ℕ, ◌+◌, ◌*◌, ◌%◌, ◌/◌, ◌^◌, ◌-◌, bit_and, bit_or, ◌||◌, Bool, true, false, not, Option, none,
  some, ltb, ◌==◌, if◌then◌else◌, ◌<<<◌, ◌>>>◌, u32,
}
mod Tests
pub mod Laws

abbrev pub slot_bits : ℕ
slot_bits = 20

abbrev pub resource_bits : ℕ
resource_bits = 7

abbrev pub slot_mask : ℕ
slot_mask = 1 <<< slot_bits - 1

abbrev pub resource_mask : ℕ
resource_mask = 1 <<< resource_bits - 1

abbrev pub side_shift : ℕ
side_shift = slot_bits + resource_bits

abbrev pub generation_shift : ℕ
generation_shift = 32

pub record FlowId : Type 0 where
  pub slot : ℕ
  pub generation : ℕ

pub data Resource : Type 0 where
  upstream_socket tap timer control dns_upstream udp_socket socks_control socks_relay : Resource

-- `resource as u64`.
abbrev pub code : Resource → ℕ
code upstream_socket = 1
code tap = 2
code timer = 3
code control = 4
code dns_upstream = 5
code udp_socket = 6
code socks_control = 7
code socks_relay = 8

-- `u64::from(bool)`.
abbrev pub bit : Bool → ℕ
bit true = 1
bit false = 0

-- A token is its 64 raw bits, `from_raw` and `raw` are the identity.
pub flow : FlowId → Resource → Bool → Option ℕ
flow id resource target_side =
    if ltb slot_mask id.slot || id.generation == 0
    then none
    else some (
        bit_or
          (bit_or (bit_or (id.generation <<< generation_shift) id.slot)
            (bit_and (code resource) resource_mask <<< slot_bits))
          (bit target_side <<< side_shift))

pub global : Resource → ℕ
global resource = bit_and (code resource) resource_mask <<< slot_bits

pub resource_of : ℕ → Option Resource
resource_of n =
    if n == 1
    then some upstream_socket
    else if n == 2
    then some tap
    else if n == 3
    then some timer
    else if n == 4
    then some control
    else if n == 5
    then some dns_upstream
    else if n == 6
    then some udp_socket
    else if n == 7
    then some socks_control
    else if n == 8
    then some socks_relay
    else none

-- `NonZeroU32::new(generation).map(...)`.
pub flow_of : ℕ → ℕ → Option FlowId
flow_of slot generation =
    if generation == 0 then none else some (record { slot = slot; generation = generation })

-- What `decode` returns once the resource is known.
pub decode_rest : ℕ → Option Resource → Option (Option FlowId × Resource × Bool)
decode_rest raw none = none
decode_rest raw (some resource) = some (
  flow_of (u32 (bit_and raw slot_mask)) (u32 (raw >>> generation_shift)),
  resource,
  not (bit_and raw (1 <<< side_shift) == 0),
)

pub decode : ℕ → Option (Option FlowId × Resource × Bool)
unfolding decode_rest
decode raw =
    if not (bit_and raw 0xf000_0000 == 0)
    then none
    else decode_rest raw (resource_of (bit_and (raw >>> slot_bits) resource_mask))
