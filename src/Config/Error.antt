-- ===== src/Config/Error.antt =====
-- crates/conduit-config/src/error.rs. The sources of an error are left out: they are only printed.
use ferroxy.Prelude.{ℕ}
use ferroxy.Prelude.Text.{Text}

-- The `field` of `HealthCheckBadDuration`.
pub data HealthField : Type 0 where
  interval timeout : HealthField

pub data ConfigError : Type 0 where
  read_ : Text → ConfigError
  toml : ConfigError
  unknown_upstream : ℕ → Text → ConfigError
  upstream_no_addrs : ℕ → Text → ConfigError
  duplicate_upstream : Text → ConfigError
  no_routes : ConfigError
  tls_required : ConfigError
  tls_no_certs : ConfigError
  cert_missing : Text → Text → ConfigError
  key_missing : Text → Text → ConfigError
  route_match_empty : ℕ → ConfigError
  route_path_conflict : ℕ → ConfigError
  retry_attempts_zero : ℕ → ConfigError
  upstream_mtls_mismatch : Text → ConfigError
  upstream_insecure_tls_not_opted_in : Text → ConfigError
  health_check_bad_duration : Text → HealthField → ConfigError
