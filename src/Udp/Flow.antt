-- ===== src/Udp/Flow.antt =====
-- The flows of crates/dataplane/src/udp.rs: their keys, their timeouts and the results of a datagram.
-- Times are nanoseconds since the program's start.
use yayatht.Base.{ℕ, ◌+◌}
use yayatht.Base.{Bool, true, false, ◌&&◌}
use yayatht.Base.{ltb, ◌==◌, if◌then◌else◌}
use yayatht.Base.{ℕ_discrete}
use yayatht.Net.{SocketAddr, v4, v6}
use yayatht.Flows.Token.{FlowId}

abbrev pub dns_timeout : ℕ
dns_timeout = 15_000_000_000

abbrev pub one_shot_timeout : ℕ
one_shot_timeout = 30_000_000_000

abbrev pub stream_timeout : ℕ
stream_timeout = 120_000_000_000

pub record AssociationKey : Type 0 where
  pub source : SocketAddr

pub record FlowKey : Type 0 where
  pub source : SocketAddr
  pub target : SocketAddr

abbrev pub association : FlowKey → AssociationKey
association key = record { source = key.source }

pub data TimeoutClass : Type 0 where
  dns one_shot stream : TimeoutClass

abbrev pub duration : TimeoutClass → ℕ
duration dns = dns_timeout
duration one_shot = one_shot_timeout
duration stream = stream_timeout

pub record Flow : Type 0 where
  pub key : FlowKey
  pub reply_source : SocketAddr
  pub last_activity : ℕ
  pub outbound_datagrams : ℕ
  pub inbound_datagrams : ℕ

abbrev pub port : SocketAddr → ℕ
port (v4 octets p) = p
port (v6 octets p) = p

abbrev pub is_ipv4 : SocketAddr → Bool
is_ipv4 (v4 octets p) = true
is_ipv4 (v6 octets p) = false

abbrev pub timeout_class : Flow → TimeoutClass
timeout_class flow =
    if port flow.key.target == 53
    then dns
    else if ltb 1 flow.outbound_datagrams && ltb 1 flow.inbound_datagrams
    then stream
    else one_shot

abbrev pub expires_at : Flow → ℕ
expires_at flow = flow.last_activity + duration (timeout_class flow)

pub record Accept : Type 0 where
  pub id : FlowId
  pub created : Bool
  pub association_created : Bool

pub data AcceptError : Type 0 where
  family_mismatch reply_route_conflict flow_limit association_limit : AcceptError

-- `Result<Accept, AcceptError>`.
pub data AcceptResult : Type 0 where
  ok : Accept → AcceptResult
  err : AcceptError → AcceptResult

pub SocketAddr-discrete : Discrete SocketAddr
SocketAddr-discrete = hlevel ℕ_discrete

pub AssociationKey-discrete : Discrete AssociationKey
AssociationKey-discrete = hlevel SocketAddr-discrete

pub FlowKey-discrete : Discrete FlowKey
FlowKey-discrete = hlevel SocketAddr-discrete
