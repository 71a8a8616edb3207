-- ===== src/Lifecycle/Dispatch/Tests/Loaded.antt =====
-- A dispatcher that is built from a configuration with TLS files.
use ferroxy.Prelude.{
  length, u64_mod, ◌<◌, ℕ, ◌≡◌, refl, true, false, [], ◌∷◌, none, some, All, arith,
}
use ferroxy.Prelude.Text.{Text, codes, text_eq, starts_with, to_ascii_lowercase}
use ferroxy.Prelude.Assoc
use ferroxy.Prelude.Checked.{done}
use ferroxy.Prelude.Result.{ok}
use ferroxy.Http.Sample.{sample_http, without}
use ferroxy.Config.Schema.{
  Config, ServerConfig, monoio, UpstreamTls, http1, round_robin, default_pool_limits,
  default_connect_timeout, default_timeouts,
}
use ferroxy.Config.Schema
use ferroxy.Config.Workers.{auto}
use ferroxy.Config.Validate.{
  ValidationOptions, check_logic, check_upstreams, check_upstream, check_tls, check_health,
  check_routes, check_route, check_retry, check_listeners,
}
use ferroxy.Upstream.Breaker.{Breaker, check}
use ferroxy.Upstream.Pool.{Upstream, pick_addr, scan}
use ferroxy.Upstream.Tls.{
  TlsLibrary, ClientConfig, build_client_config, load_roots, add_roots, load_client_auth,
  read_chain, build_https_connector, with_tls,
}
use ferroxy.Upstream.Forward.{choose, egress_parts, rewrite_uri}
use ferroxy.Lifecycle.Route.{Route, any_, headers_match, all_present}
use ferroxy.Lifecycle.Bucket
use ferroxy.Lifecycle.Table
use ferroxy.Lifecycle.Upstreams.{get, insert, options_of, build_one}
use ferroxy.Lifecycle.Upstreams.Build.{Loads, verified_of_checked}
use ferroxy.Upstream.Forward.Until.{forward_until, collect_until, send_until, loop_until}
use ferroxy.Lifecycle.Dispatch.{Dispatch, Handled, dispatch_to, with_timeout, handle, from_config}
use ferroxy.Lifecycle.Dispatch.Tests.{get_index, unreachable, clock, too_slow}

-- Every file holds one certificate, and every key fits.
abbrev pub sample_tls : TlsLibrary
sample_tls = record {
  Bytes = Text;
  Cert = Text;
  Key = Text;
  read = some;
  pem_certs = λ bytes. some bytes ∷ [];
  pem_key = some;
  root_ok = λ cert. true;
  pair_ok = λ chain key. true;
}

abbrev api_tls : UpstreamTls
api_tls = record {
  server_name = none;
  ca = some (codes "ca.pem");
  client_cert = some (codes "cert.pem");
  client_key = some (codes "key.pem");
  verify = true;
}

abbrev api : Schema.Upstream
api = record {
  name = codes "api";
  addrs = codes "10.0.0.1:80" ∷ [];
  protocol = http1;
  tls = some api_tls;
  lb = round_robin;
  pool = default_pool_limits;
  connect_timeout = default_connect_timeout;
  health_check = none;
}

abbrev server : ServerConfig
server = record {
  runtime = monoio;
  workers = auto;
  cpu_affinity = false;
  listen_http = codes "0.0.0.0:80" ∷ [];
  listen_https = [];
  listen_h3 = [];
  admin_listen = codes "127.0.0.1:9091";
  metrics_listen = codes "127.0.0.1:9090";
}

abbrev pub config : Config (Unit {0})
config = record {
  server = server;
  tls = none;
  upstreams = api ∷ [];
  routes =
      record {
        match_ = record {
          host = none;
          path_prefix = some (codes "/");
          path_exact = none;
          path_regex = none;
          headers = [];
        };
        upstream = codes "api";
        timeouts = default_timeouts;
        retry = none;
        filters = [];
      }
      ∷ [];
}

abbrev pub strict : ValidationOptions
strict = record { allow_insecure_tls = false }

pub accepted : check_logic config strict ≡ ok tt
unfolding check_logic check_upstreams check_upstream check_tls check_health check_routes check_route
    check_retry check_listeners text_eq
accepted = refl

abbrev pub built_at : Text → ℕ → ℕ
built_at name i = i

pub loaded : All (Loads sample_tls built_at) config.upstreams
unfolding build_one with_tls build_https_connector build_client_config load_roots add_roots
    load_client_auth read_chain
loaded = ((_, refl), tt)

abbrev chosen : ClientConfig sample_tls
chosen = record {
  roots = some (codes "ca.pem" ∷ []);
  client_auth = some (codes "cert.pem" ∷ [], codes "key.pem");
  insecure = false;
}

api_built : build_client_config sample_tls (options_of api_tls) ≡ ok chosen
unfolding build_client_config load_roots add_roots load_client_auth read_chain
api_built = refl

verified_of_checked_example : chosen.insecure ≡ false
verified_of_checked_example =
    verified_of_checked sample_tls config strict 0 api api_tls chosen accepted refl refl refl
      api_built

abbrev from_file : Dispatch sample_http
from_file = from_config sample_http sample_tls built_at config

answer_of :
    (out : Handled sample_http) × (handle sample_http unreachable clock too_slow from_file get_index
      ≡ done out)
unfolding from_config Table.from_config ferroxy.Lifecycle.Upstreams.from_config
    ferroxy.Lifecycle.Upstreams.add_upstreams ferroxy.Lifecycle.Route.from_config
    ferroxy.Lifecycle.Route.translate ferroxy.Upstream.Pool.with_options
    ferroxy.Upstream.Pool.new_breakers ferroxy.Upstream.Breaker.new build_one with_tls
    build_https_connector build_client_config load_roots add_roots load_client_auth read_chain
    handle dispatch_to with_timeout forward_until collect_until send_until loop_until
    ferroxy.Upstream.Retry.decide_status choose pick_addr scan check egress_parts rewrite_uri
    without get insert Assoc.insert Table.find Table.lookup_bucket Table.build Table.add_routes
    Bucket.find Bucket.finalise Bucket.insert Bucket.push_prefix Bucket.sort_insert headers_match
    all_present Assoc.lookup text_eq to_ascii_lowercase starts_with Bucket.scan_prefixes
    Bucket.sort_by_length Assoc.map_values
answer_of = (_, refl)

pub few_addrs : All (λ (u : Schema.Upstream). length u.addrs < u64_mod) config.upstreams
few_addrs = (omega arith, tt)
