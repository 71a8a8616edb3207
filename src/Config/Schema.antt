-- ===== src/Config/Schema.antt =====
-- crates/conduit-config/src/schema.rs. A path and an address stand for their texts, a duration counts
-- nanoseconds. `Table` is the type of a filter's parameters, `toml::value::Table`.
use ferroxy.Prelude.{ℕ, Bool, List, [], ◌∷◌, Option, from_secs}
use ferroxy.Prelude.Text.{Text, codes}
use ferroxy.Config.Workers.{Workers}

pub data RuntimeMode : Type 0 where
  monoio tokio : RuntimeMode

pub record ServerConfig : Type 0 where
  pub runtime : RuntimeMode
  pub workers : Workers
  pub cpu_affinity : Bool
  pub listen_http : List Text
  pub listen_https : List Text
  pub listen_h3 : List Text
  pub admin_listen : Text
  pub metrics_listen : Text

pub data TlsMinVersion : Type 0 where
  v1_2 v1_3 : TlsMinVersion

pub record CertSpec : Type 0 where
  pub sni : Text
  pub cert : Text
  pub key : Text
  pub ocsp_response : Option Text

pub record TlsConfig : Type 0 where
  pub certs : List CertSpec
  pub min_version : TlsMinVersion
  pub alpn : List Text
  pub session_tickets : Bool
  pub ocsp_stapling : Bool
  pub enable_0rtt : Bool

pub data UpstreamProtocol : Type 0 where
  http1 h2 : UpstreamProtocol

pub data LoadBalancer : Type 0 where
  round_robin least_conn p2c consistent_hash : LoadBalancer

pub record UpstreamTls : Type 0 where
  pub server_name : Option Text
  pub ca : Option Text
  pub client_cert : Option Text
  pub client_key : Option Text
  pub verify : Bool

pub record PoolLimits : Type 0 where
  pub max_idle_per_host : ℕ
  pub idle_timeout : ℕ
  pub max_lifetime : ℕ

pub record HealthCheck : Type 0 where
  pub path : Text
  pub interval : ℕ
  pub timeout : ℕ
  pub unhealthy_threshold : ℕ
  pub healthy_threshold : ℕ

pub record Upstream : Type 0 where
  pub name : Text
  pub addrs : List Text
  pub protocol : UpstreamProtocol
  pub tls : Option UpstreamTls
  pub lb : LoadBalancer
  pub pool : PoolLimits
  pub connect_timeout : ℕ
  pub health_check : Option HealthCheck

pub record HeaderMatch : Type 0 where
  pub name : Text
  pub value : Text

pub record RouteMatch : Type 0 where
  pub host : Option Text
  pub path_prefix : Option Text
  pub path_exact : Option Text
  pub path_regex : Option Text
  pub headers : List HeaderMatch

pub record Timeouts : Type 0 where
  pub connect : ℕ
  pub read : ℕ
  pub write : ℕ
  pub total : ℕ

pub record RetryPolicy : Type 0 where
  pub attempts : ℕ
  pub on_status : List ℕ
  pub on_connect_error : Bool

pub record Filter (Table : Type 0) : Type 0 where
  pub kind : Text
  pub params : Table

pub record Route (Table : Type 0) : Type 0 where
  pub match_ : RouteMatch
  pub upstream : Text
  pub timeouts : Timeouts
  pub retry : Option RetryPolicy
  pub filters : List (Filter Table)

pub record Config (Table : Type 0) : Type 0 where
  pub server : ServerConfig
  pub tls : Option TlsConfig
  pub upstreams : List Upstream
  pub routes : List (Route Table)

abbrev pub default_alpn : List Text
default_alpn = codes "h3" ∷ codes "h2" ∷ codes "http/1.1" ∷ []

abbrev pub default_connect_timeout : ℕ
default_connect_timeout = from_secs 2

abbrev pub default_pool_limits : PoolLimits
default_pool_limits = record {
  max_idle_per_host = 64;
  idle_timeout = from_secs 60;
  max_lifetime = from_secs 600;
}

abbrev pub default_hc_path : Text
default_hc_path = codes "/healthz"

abbrev pub default_hc_timeout : ℕ
default_hc_timeout = from_secs 2

abbrev pub default_hc_unhealthy_threshold : ℕ
default_hc_unhealthy_threshold = 3

abbrev pub default_hc_healthy_threshold : ℕ
default_hc_healthy_threshold = 1

abbrev pub default_timeouts : Timeouts
default_timeouts = record {
  connect = from_secs 2;
  read = from_secs 30;
  write = from_secs 30;
  total = from_secs 60;
}
