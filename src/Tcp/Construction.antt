-- ===== src/Tcp/Construction.antt =====
-- `FlowConstruction` of crates/tcp-adapter/src/flow.rs: the two sides and the type of a flow are set
-- in a fixed order before it is active.
mod Tests
pub mod Order
use yayatht.Base.{ℕ, zero, suc, ◌+◌, ◌-◌, ◌*◌, ◌/◌, ◌%◌, ◌^◌, ◌≤◌, ◌<◌, min, max, bit_and, bit_or}
use yayatht.Base.{
  ◌≡◌, refl, sym, ap, subst, ◌∙◌, ◌≢◌, ◌↔◌, ◌⊎◌, inl, inr, Bool, true, false, not, ◌&&◌, ◌||◌,
}
use yayatht.Base.{
  Option, none, some, List, [], ◌∷◌, ◌++◌, map, arith, ltb, leb, ◌==◌, if◌then◌else◌, ==_iff,
  Bool-cases, Option-cases, is_some,
}
use yayatht.Base.{
  length, get_elem?, get_or, set, take, drop, replicate, slice, splice, All, length-append,
  length-set, get_elem?-set_self, get_elem?-set_ne, get_elem?-lt, length-take, length-drop,
  length-replicate, length-splice, splice-nil, splice-splice, splice-zero, take-append, drop-append,
  take_all, drop-drop,
}
use yayatht.Base.{
  u8_max, u16_max, u32_max, u64_max, IsU8, IsU16, IsU32, u8, u16, u32, u64, add32, sub32, ◌<<<◌,
  ◌>>>◌, be16, bytes16, be32, bytes32, be16-bytes16, be32-bytes32,
}
use yayatht.Base.{
  zero-bit_or, bit_or-zero, bit_and-zero, bit_or_cut, bit_and_cut, bit_or_fields, bit_and_mask,
  bit_or_insert, bit_and_field,
}
use yayatht.Net.{SocketAddr}

pub data FlowInterface : Type 0 where
  namespace_tap host_socket proxy_tunnel : FlowInterface

pub record FlowSide : Type 0 where
  pub interface : FlowInterface
  pub local_endpoint : SocketAddr
  pub logical_peer : SocketAddr
  pub transport_peer : SocketAddr

pub record FlowSides : Type 0 where
  pub initiating : FlowSide
  pub target : FlowSide

pub record FlowKey : Type 0 where
  pub namespace : SocketAddr
  pub target : SocketAddr

pub namespace_key : FlowSides → FlowKey
namespace_key sides = record {
  namespace = sides.initiating.logical_peer;
  target = sides.initiating.local_endpoint;
}

pub data FlowType : Type 0 where
  tcp : FlowType

pub data ConstructionState : Type 0 where
  new initiated targeted typed active : ConstructionState

pub record FlowConstruction : Type 0 where
  pub state : ConstructionState
  pub initiating : Option FlowSide
  pub target : Option FlowSide
  pub flow_type : Option FlowType

-- `Result<A, ConstructionState>`; `panic` is a failed `expect`.
pub data Outcome {ℓ} (A : Type ℓ) : Type ℓ where
  ok : A → Outcome A
  err : ConstructionState → Outcome A
  panic : Outcome A

pub new_construction : FlowConstruction
new_construction = record { state = new; initiating = none; target = none; flow_type = none }

pub set_initiating_in :
    ConstructionState → FlowConstruction → FlowSide → Outcome (Unit {0}) × FlowConstruction
set_initiating_in new c side = (ok tt, record c { initiating = some side; state = initiated })
set_initiating_in s c side = (err s, c)

pub set_initiating : FlowConstruction → FlowSide → Outcome (Unit {0}) × FlowConstruction
unfolding set_initiating_in
set_initiating c side = set_initiating_in c.state c side

pub set_target_in :
    ConstructionState → FlowConstruction → FlowSide → Outcome (Unit {0}) × FlowConstruction
set_target_in initiated c side = (ok tt, record c { target = some side; state = targeted })
set_target_in s c side = (err s, c)

pub set_target : FlowConstruction → FlowSide → Outcome (Unit {0}) × FlowConstruction
unfolding set_target_in
set_target c side = set_target_in c.state c side

pub set_type_in :
    ConstructionState → FlowConstruction → FlowType → Outcome (Unit {0}) × FlowConstruction
set_type_in targeted c t = (ok tt, record c { flow_type = some t; state = typed })
set_type_in s c t = (err s, c)

pub set_type : FlowConstruction → FlowType → Outcome (Unit {0}) × FlowConstruction
unfolding set_type_in
set_type c t = set_type_in c.state c t

-- The two `expect`s.
pub sides_of : Option FlowSide → Option FlowSide → Option FlowSides
sides_of (some i) (some t) = some (record { initiating = i; target = t })
sides_of none _ = none
sides_of (some i) none = none

pub activated : FlowConstruction → Option FlowSides → Outcome FlowSides × FlowConstruction
activated c none = (panic, c)
activated c (some sides) = (ok sides, record c { state = active })

pub activate_in :
    ConstructionState → Option FlowType → FlowConstruction → Outcome FlowSides × FlowConstruction
unfolding activated sides_of
activate_in typed (some tcp) c = activated c (sides_of c.initiating c.target)
activate_in s t c = (err s, c)

pub activate : FlowConstruction → Outcome FlowSides × FlowConstruction
unfolding activate_in
activate c = activate_in c.state c.flow_type c

-- `some none` is a normal return of `None`; `none` is a failed `expect`.
pub active_sides_in : ConstructionState → FlowConstruction → Option (Option FlowSides)
unfolding sides_of
active_sides_in active c = elim (sides_of c.initiating c.target) [
  | none ↦ none
  | some s ↦ some (some s)
]
active_sides_in s c = some none

pub active_sides : FlowConstruction → Option (Option FlowSides)
unfolding active_sides_in
active_sides c = active_sides_in c.state c
