-- ===== src/Transport.antt =====
-- crates/conduit-transport: the certificates that the server offers.
pub mod Resolver
