-- ===== src/Config/Validate.antt =====
-- crates/conduit-config/src/validate.rs, and `parse` and `load` of crates/conduit-config/src/lib.rs. The TOML
-- parser, the environment and the file system are parameters.
pub mod Rules
pub mod Sound
mod Tests
use ferroxy.Prelude.{
  ℕ, suc, ◌+◌, Bool, true, false, not, ◌&&◌, ◌||◌, List, [], ◌∷◌, Option, none, some, any, is_empty,
  ◌==◌, if◌then◌else◌,
}
use ferroxy.Prelude.Text.{Text, text_eq, codes}
use ferroxy.Prelude.Result.{Result, ok, err, ◌>>=◌, ◌>>◌, fail_if, ok_or}
use ferroxy.Config.Schema.{
  Config, ServerConfig, TlsConfig, CertSpec, Upstream, UpstreamTls, HealthCheck, Route, RouteMatch,
  RetryPolicy,
}
use ferroxy.Config.Error.{
  ConfigError, interval, timeout, read_, toml, unknown_upstream, upstream_no_addrs,
  duplicate_upstream, no_routes, tls_required, tls_no_certs, cert_missing, key_missing,
  route_match_empty, route_path_conflict, retry_attempts_zero, upstream_mtls_mismatch,
  upstream_insecure_tls_not_opted_in, health_check_bad_duration,
}

pub record ValidationOptions : Type 0 where
  pub allow_insecure_tls : Bool

abbrev pub Checked : Type 0
Checked = Result ConfigError (Unit {0})

abbrev pub is_some {ℓ} : {A : Type ℓ} → Option A → Bool
is_some none = false
is_some (some a) = true

abbrev pub contains : List Text → Text → Bool
contains names name = any (λ n. text_eq n name) names

abbrev differ : Bool → Bool → Bool
differ true b = not b
differ false b = b

unfoldable pub check_tls : ValidationOptions → Text → Option UpstreamTls → Checked
check_tls opts name none = ok tt
check_tls opts name (some tls) = do
  fail_if (differ (is_some tls.client_cert) (is_some tls.client_key)) (upstream_mtls_mismatch name)
  fail_if (not tls.verify && not opts.allow_insecure_tls) (upstream_insecure_tls_not_opted_in name)

unfoldable pub check_health : Text → Option HealthCheck → Checked
check_health name none = ok tt
check_health name (some hc) = do
  fail_if (hc.interval == 0) (health_check_bad_duration name interval)
  fail_if (hc.timeout == 0) (health_check_bad_duration name timeout)

-- The body of the loop over the upstreams; the set holds the names seen so far.
unfoldable pub check_upstream : ValidationOptions → ℕ → List Text → Upstream → Checked
check_upstream opts i seen u = do
  fail_if (is_empty u.addrs) (upstream_no_addrs i u.name)
  fail_if (contains seen u.name) (duplicate_upstream u.name)
  check_tls opts u.name u.tls
  check_health u.name u.health_check

-- The loop returns the set of all names.
unfoldable pub check_upstreams :
    ValidationOptions → ℕ → List Text → List Upstream → Result ConfigError (List Text)
check_upstreams opts i seen [] = ok seen
check_upstreams opts i seen (u ∷ us) = do
  check_upstream opts i seen u
  check_upstreams opts (i + 1) (u.name ∷ seen) us

unfoldable pub check_retry : ℕ → Option RetryPolicy → Checked
check_retry i none = ok tt
check_retry i (some retry) = fail_if (retry.attempts == 0) (retry_attempts_zero i)

abbrev pub has_path : RouteMatch → Bool
has_path m = is_some m.path_prefix || is_some m.path_exact || is_some m.path_regex

-- The body of the loop over the routes.
unfoldable pub check_route : {T : Type 0} → List Text → ℕ → Route T → Checked
check_route seen i r = do
  fail_if (not (contains seen r.upstream)) (unknown_upstream i r.upstream)
  fail_if (not (is_some r.match_.host) && not (has_path r.match_)) (route_match_empty i)
  fail_if (is_some r.match_.path_prefix && is_some r.match_.path_exact) (route_path_conflict i)
  check_retry i r.retry

unfoldable pub check_routes : {T : Type 0} → List Text → ℕ → List (Route T) → Checked
check_routes seen i [] = ok tt
check_routes seen i (r ∷ rs) = do check_route seen i r; check_routes seen (i + 1) rs

abbrev pub needs_tls : ServerConfig → Bool
needs_tls s = not (is_empty s.listen_https) || not (is_empty s.listen_h3)

unfoldable pub check_listeners : Bool → Option TlsConfig → Checked
check_listeners needed none = fail_if needed tls_required
check_listeners needed (some t) = fail_if (is_empty t.certs) tls_no_certs

unfoldable pub check_logic : {T : Type 0} → Config T → ValidationOptions → Checked
check_logic cfg opts = do
  fail_if (is_empty cfg.routes) no_routes
  seen ← check_upstreams opts 0 [] cfg.upstreams
  check_routes seen 0 cfg.routes
  check_listeners (needs_tls cfg.server) cfg.tls

-- The loop of `check_filesystem`.
unfoldable pub check_certs : (Text → Bool) → List CertSpec → Checked
check_certs is_file [] = ok tt
check_certs is_file (c ∷ cs) = do
  fail_if (not (is_file c.cert)) (cert_missing c.sni c.cert)
  fail_if (not (is_file c.key)) (key_missing c.sni c.key)
  check_certs is_file cs

unfoldable pub check_filesystem : {T : Type 0} → (Text → Bool) → Config T → Checked
check_filesystem is_file cfg = elim cfg.tls [
  | none ↦ ok tt
  | some tls ↦ check_certs is_file tls.certs
]

-- What the process takes from its surroundings: the variable `CONDUIT_ALLOW_INSECURE_TLS`, the test
-- for a regular file, the reader of a file, and the TOML parser.
pub record World (T : Type 0) : Type 0 where
  pub insecure_env : Option Text
  pub is_file : Text → Bool
  pub read_to_string : Text → Option Text
  pub from_str : Text → Option (Config T)

abbrev pub options : Option Text → ValidationOptions
options none = record { allow_insecure_tls = false }
options (some v) = record { allow_insecure_tls = text_eq v (codes "1") }

module _ {T : Type 0} (w : World T) where
  unfoldable pub check : Config T → Checked
  check cfg = do check_logic cfg (options w.insecure_env); check_filesystem w.is_file cfg

  unfoldable pub parse : Text → Result ConfigError (Config T)
  unfolding check
  parse text = do cfg ← ok_or (w.from_str text) toml; check cfg; ok cfg

  unfoldable pub load : Text → Result ConfigError (Config T)
  unfolding parse
  load path = do text ← ok_or (w.read_to_string path) (read_ path); parse text
