-- ===== src/Launch.antt =====
-- crates/namespace/src/config.rs: the configuration of a launch, its validation and the share of each
-- worker.
mod Tests
pub mod Config
pub mod Shares
pub mod Valid
