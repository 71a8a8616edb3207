-- ===== src/Lifecycle/Dispatch/Tests.antt =====
-- A dispatcher with one route and one upstream.
pub mod Loaded
use ferroxy.Prelude.{
  Option, length, u64_mod, ◌<◌, ℕ, ◌+◌, ◌≡◌, ◌≢◌, refl, Bool, true, false, [], ◌∷◌, none, some, All,
  arith,
}
use ferroxy.Prelude.Text.{Text, codes, text_eq, starts_with, to_ascii_lowercase}
use ferroxy.Prelude.Assoc
use ferroxy.Prelude.Checked.{done}
use ferroxy.Prelude.Result.{ok, err}
use ferroxy.Http.Sample.{sample_http, without}
use ferroxy.Config.Schema.{
  Config, ServerConfig, monoio, UpstreamTls, http1, round_robin, default_pool_limits,
  default_connect_timeout, default_timeouts,
}
use ferroxy.Config.Schema
use ferroxy.Config.Workers.{auto}
use ferroxy.Config.Validate.{
  ValidationOptions, check_logic, check_upstreams, check_upstream, check_tls, check_health,
  check_routes, check_route, check_retry, check_listeners,
}
use ferroxy.Upstream.Breaker.{Breaker, check}
use ferroxy.Upstream.Retry.{RetryPolicy}
use ferroxy.Upstream.Pool.{Upstream, pick_addr, scan}
use ferroxy.Upstream.Pool.Select.{IsValid}
use ferroxy.Upstream.Tls.{
  TlsLibrary, ClientConfig, mismatched_client_cert, build_client_config, load_roots, add_roots,
  load_client_auth, read_chain, build_https_connector, with_tls,
}
use ferroxy.Upstream.Forward.{
  Request, Reply, broken, Outgoing, http_11, choose, egress_parts, rewrite_uri,
}
use ferroxy.Lifecycle.Route.{Route, any_, headers_match, all_present}
use ferroxy.Lifecycle.Bucket
use ferroxy.Lifecycle.Table
use ferroxy.Lifecycle.Upstreams.{get, insert, options_of, build_one}
use ferroxy.Lifecycle.Upstreams.Build.{Loads, verified_of_checked, build_client_config_of_checked}
use ferroxy.Lifecycle.Dispatch.{
  Dispatch, Handled, timeout, upstream_not_registered, route_of, dispatch_to, with_timeout, handle,
  from_config,
}
use ferroxy.Upstream.Forward.Until.{forward_until, collect_until, send_until, loop_until}
use ferroxy.Lifecycle.Dispatch.Handle.{handle_timeout}
use ferroxy.Lifecycle.Dispatch.Registered.{handle_of_checked}
use ferroxy.Lifecycle.Dispatch.Total.{handle_total}
use ferroxy.Lifecycle.Upstreams.Valid.{IsValidMap, from_config-IsValidMap}

abbrev well : Breaker
well = record { threshold = 5; cooldown_ms = 30_000; anchor = 0; failures = 0; open_until_ms = 0 }

abbrev twice : RetryPolicy
twice = record { attempts = 2; on_connect_error = true; on_status = [] }

abbrev pool : Upstream
pool = record {
  retry = twice;
  addrs = codes "10.0.0.1:80" ∷ [];
  authorities = codes "10.0.0.1:80" ∷ [];
  next = 0;
  breakers = well ∷ [];
}

pool-IsValid : IsValid pool
pool-IsValid = record {
  breakers_parallel = refl;
  authorities_parallel = refl;
  fits = omega arith;
  next_fits = omega arith;
}

abbrev to_api : Route sample_http
to_api = record {
  host = none;
  path = any_;
  header_matches = [];
  upstream = codes "api";
  total_timeout = 60;
  read_timeout = 30;
}

abbrev pub dispatch : Dispatch sample_http
dispatch = record {
  routes = Table.build sample_http (to_api ∷ []);
  upstreams = record { by_name = (codes "api", pool) ∷ [] };
}

abbrev pub get_index : Request sample_http
get_index = record {
  parts = record {
    method = codes "GET";
    uri = record { scheme = none; authority = none; path_and_query = some (codes "/index") };
    version = http_11;
    headers = (codes "host", codes "example.com") ∷ [];
  };
  body = record { exact = some 0; collect = none };
}

abbrev pub unreachable : ℕ → Outgoing sample_http → Reply sample_http
unreachable n out = broken true

abbrev pub clock : ℕ → ℕ
clock n = 1_000 + n

-- The total timeout comes while the reply to the second attempt is awaited.
abbrev pub too_slow : ℕ → Option ℕ
too_slow total = some 1

abbrev after : Dispatch sample_http
after = record dispatch {
  upstreams = record { by_name = (codes "api", record pool { next = 1 }) ∷ [] };
}

found : route_of sample_http dispatch get_index ≡ some to_api
unfolding Table.find Table.lookup_bucket Table.build Table.add_routes Bucket.find Bucket.finalise
    Bucket.insert headers_match all_present Assoc.lookup text_eq to_ascii_lowercase
    Bucket.scan_prefixes Bucket.sort_by_length Assoc.map_values
found = refl

known : get dispatch.upstreams (codes "api") ≡ some pool
unfolding get Assoc.lookup text_eq
known = refl

cut_off :
    handle sample_http unreachable clock too_slow dispatch get_index
    ≡ done (err (timeout 60), after)
unfolding handle dispatch_to with_timeout forward_until collect_until send_until loop_until choose
    pick_addr scan check egress_parts rewrite_uri without get insert Assoc.insert Table.find
    Table.lookup_bucket Table.build Table.add_routes Bucket.find Bucket.finalise Bucket.insert
    headers_match all_present Assoc.lookup text_eq to_ascii_lowercase Bucket.scan_prefixes
    Bucket.sort_by_length Assoc.map_values
cut_off = refl

handle_timeout_example :
    (u' : Upstream) × (get after.upstreams (codes "api") ≡ some u')
    × (u'.breakers ≡ pool.breakers)
    × (let total : ℕ = 60 in total ≡ to_api.total_timeout)
handle_timeout_example =
    handle_timeout sample_http unreachable clock too_slow dispatch get_index to_api pool after 60
      found known pool-IsValid cut_off

pub all_valid : IsValidMap dispatch.upstreams
all_valid = (pool-IsValid, tt)
