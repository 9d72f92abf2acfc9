-- ===== src/Reactor.antt =====
-- The data types of crates/dataplane/src/reactor.rs that keep a flow's bytes and its retransmissions.
mod Tests
pub mod Pending
pub mod Segment
pub mod Pool
pub mod Budget
