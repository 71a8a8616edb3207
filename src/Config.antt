-- ===== src/Config.antt =====
-- crates/conduit-config: the configuration document, its validation, durations and worker counts.
pub mod Schema
pub mod Error
pub mod Duration
pub mod Workers
pub mod Validate
