-- ===== src/Config/Validate/Rules.antt =====
-- What a valid configuration is, stated without the order of the checks.
use ferroxy.Prelude.{
  Bool, true, false, ◌&&◌, ◌||◌, ◌≡◌, ◌≢◌, ◌⊎◌, List, [], ◌∷◌, Option, none, some, All, is_empty,
  map,
}
use ferroxy.Prelude.Text.{Text}
use ferroxy.Config.Schema.{
  Config, TlsConfig, Upstream, UpstreamTls, HealthCheck, Route, RetryPolicy,
}
use ferroxy.Config.Validate.{ValidationOptions, is_some, has_path, needs_tls}

-- A predicate of the value of an option, if it has one.
abbrev pub OnSome : {A : Type 0} → (A → Type 0) → Option A → Type 0
OnSome P none = Unit
OnSome P (some a) = P a

abbrev pub Listed : Text → List Text → Type 0
Listed name [] = ⊥
Listed name (n ∷ ns) = (n ≡ name) ⊎ Listed name ns

abbrev pub Distinct : List Text → Type 0
Distinct [] = Unit
Distinct (n ∷ ns) = (¬ Listed n ns) × Distinct ns

pub record TlsRules (opts : ValidationOptions) (t : UpstreamTls) : Type 0 where
  pub mtls_pair : is_some t.client_cert ≡ is_some t.client_key
  pub opted_in : (t.verify ≡ true) ⊎ (opts.allow_insecure_tls ≡ true)

pub record HealthRules (hc : HealthCheck) : Type 0 where
  pub interval_positive : hc.interval ≢ 0
  pub timeout_positive : hc.timeout ≢ 0

pub record UpstreamRules (opts : ValidationOptions) (u : Upstream) : Type 0 where
  pub has_addrs : is_empty u.addrs ≡ false
  pub tls_rules : OnSome (TlsRules opts) u.tls
  pub health_rules : OnSome HealthRules u.health_check

pub record RouteRules {T : Type 0} (names : List Text) (r : Route T) : Type 0 where
  pub upstream_declared : Listed r.upstream names
  pub constrained : (is_some r.match_.host || has_path r.match_) ≡ true
  pub one_path : (is_some r.match_.path_prefix && is_some r.match_.path_exact) ≡ false
  pub retries : OnSome (λ (p : RetryPolicy). p.attempts ≢ 0) r.retry

-- TLS material is there where a listener needs it, and is never an empty list.
abbrev pub ListenerRules : Bool → Option TlsConfig → Type 0
ListenerRules needed none = needed ≡ false
ListenerRules needed (some t) = is_empty t.certs ≡ false

abbrev pub names : List Upstream → List Text
names us = map (λ u. u.name) us

pub record IsValidConfig {T : Type 0} (opts : ValidationOptions) (cfg : Config T) : Type 0 where
  pub has_routes : is_empty cfg.routes ≡ false
  pub names_distinct : Distinct (names cfg.upstreams)
  pub upstream_rules : All (UpstreamRules opts) cfg.upstreams
  pub route_rules : All (RouteRules (names cfg.upstreams)) cfg.routes
  pub listener_rules : ListenerRules (needs_tls cfg.server) cfg.tls
