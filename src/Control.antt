-- ===== src/Control.antt =====
-- crates/conduit-control: the counters of the data plane, and the admin server.
pub mod Metrics
pub mod Admin
