-- ===== src/Lifecycle.antt =====
-- crates/conduit-lifecycle: routes, their index by host and path, and the dispatch of a request.
pub mod Route
pub mod Bucket
pub mod Table
pub mod Upstreams
pub mod Dispatch
