-- ===== src/Lib.antt =====
-- yayatht runs a command in private Linux namespaces and adapts the traffic of a TAP device to
-- sockets of the host, directly or through a SOCKS5 or HTTP CONNECT proxy. This library models the
-- parts of the program that decide what happens to each byte and each connection.
--
-- Frames come from the TAP device with a virtio header. The packet crate parses them and writes the
-- answers: Packet.Vnet (crates/packet/src/vnet.rs), Packet.Ethernet (ethernet.rs), Packet.Ip
-- (ip.rs), Packet.Tcp (tcp.rs), Packet.Udp (udp.rs) and Packet.Checksum (checksum.rs). A buffer is
-- a list of bytes, `copy_from_slice` is `splice`, and a function that writes returns the new
-- buffer. The loop of `fold_sum` has three rounds, which leave at most 16 bits of any 32-bit sum;
-- the walk over IPv6 extension headers has the eight rounds of the source; the loop over TCP
-- options has as many rounds as there are option bytes, and more change nothing.
--
-- A TCP segment of the namespace belongs to a connection that the adapter terminates. Tcp.Flow is
-- `Flow` of crates/tcp-adapter/src/flow.rs, one function per method; `receive` is cut into the
-- acknowledgment (`take_ack`), the data (`receive_data`) and the FIN (`accept_fin`), in this order.
-- Tcp.Construction is `FlowConstruction` of the same file, and Tcp.Sequence is
-- crates/tcp-adapter/src/sequence.rs. Machine words are natural numbers, with the wrap-around
-- written out.
--
-- The data plane keeps its connections in a table: Flows.Table is `FlowTable` and Flows.Token is
-- `EpollToken` of crates/dataplane/src/flow_table.rs. Tables change by the steps of
-- Flows.Table.History. A panic is `none`.
--
-- A connection through a proxy starts with a handshake: Proxy.Handshake and Proxy.Receive are
-- `Handshake` of crates/proxy-proto/src/lib.rs, Proxy.Datagram is
-- crates/proxy-proto/src/socks5_udp.rs. A method that takes `&mut self` returns its result beside
-- the new state, also where it fails. The text of an address, Base64, UTF-8 checks, splitting at
-- white space and the parsing of a number belong to other libraries and are the fields of `Text`.
--
-- UDP has no connections; Udp.Flow and Udp.Engine are crates/dataplane/src/udp.rs, the flows and
-- the engine with the associations that they share, which keeps its flows in Flows.Table. Queries
-- for names go through Dns.Engine, `Engine` of crates/dataplane/src/dns.rs, over the message
-- functions of Dns.Message. A hash map is an association list whose keys stand once (Base.Maps);
-- where the source iterates over a map, the order is that of the list. The search of `allocate_id`
-- has 2 ^ 16 rounds, one for each id; `skip_name` and the walk over the records of a query have the
-- rounds of the source.
--
-- Of the reactor itself (crates/dataplane/src/reactor.rs) Reactor.Pending is `PendingSocketQueue`,
-- Reactor.Budget is what the reactor does to the pending bytes of all flows
-- (`enqueue_pending_payload`, `consume_pending_payload` and the part of `close_flow`),
-- Reactor.Segment is `SentSegment` with the loop that takes acknowledged segments off the queue,
-- and the backoff of retransmissions and probes; Reactor.Pool is the frame pool of
-- crates/dataplane/src/buffer.rs. Tcp.Timer is `TimerWheel` of crates/tcp-adapter/src/timer.rs; its
-- outer loop has as many rounds as ticks lie between the cursor and now.
--
-- Launch.Config is crates/namespace/src/config.rs: the configuration of a launch, its validation
-- and the share of every worker, which sizes the worker's tables.
--
-- Base holds what the others share: tests, machine words, lists and slices, maps, bit fields.
--
-- Not modelled: the event loop and its sockets (the rest of crates/dataplane/src/reactor.rs), ICMP
-- and neighbour discovery (crates/packet/src/icmp.rs, neighbor.rs), the supervisor, system calls
-- and the command line (crates/namespace, crates/sys, crates/cli), which are I/O or stand apart
-- from these parts. Allocation, the clearing of secrets and debug output are left out.
pub mod Base
pub mod Net
pub mod Flows
pub mod Tcp
pub mod Packet
pub mod Proxy
pub mod Dns
pub mod Udp
pub mod Reactor
pub mod Launch
