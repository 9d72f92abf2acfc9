-- ===== src/Tcp.antt =====
-- crates/tcp-adapter: serial-number arithmetic, the construction of a flow, and the TCP flow that
-- the namespace talks to.
pub mod Sequence
pub mod Construction
pub mod Flow
pub mod Timer
