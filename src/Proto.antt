-- ===== src/Proto.antt =====
-- crates/conduit-proto: bodies held in memory, and the cancellation token.
pub mod Body
pub mod Cancel
