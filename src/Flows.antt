-- ===== src/Flows.antt =====
-- crates/dataplane/src/flow_table.rs: the table of flows and the epoll tokens that name them.
pub mod Token
pub mod Table
