-- ===== src/Udp.antt =====
-- crates/dataplane/src/udp.rs: the UDP flows and the associations that they share.
mod Tests
pub mod Flow
pub mod Engine
