-- ===== src/Upstream.antt =====
-- crates/conduit-upstream: breakers, retry policy, backend selection, request forwarding.
pub mod Breaker
pub mod Retry
pub mod Pool
pub mod Timed
pub mod Tls
pub mod Health
pub mod Forward
