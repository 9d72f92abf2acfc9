-- ===== src/Dns.antt =====
-- crates/dataplane/src/dns.rs: the DNS transaction engine.
mod Tests
pub mod Message
pub mod Engine
