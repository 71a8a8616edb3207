-- ===== src/Io.antt =====
-- crates/conduit-io: binding the listeners, and the workers that accept and drain connections.
pub mod Bind
pub mod Socket
pub mod Worker
pub mod Spawn
