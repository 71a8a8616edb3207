-- ===== src/Config/Validate/Tests.antt =====
-- A small configuration, and what is wrong with some others.
use ferroxy.Prelude.{ℕ, ◌≡◌, ◌≢◌, refl, true, false, [], ◌∷◌, none, some, arith, inl}
use ferroxy.Prelude.Text.{codes, Text, text_eq}
use ferroxy.Prelude.Result.{ok, err}
use ferroxy.Config.Schema.{
  Config, ServerConfig, monoio, Upstream, http1, round_robin, default_pool_limits,
  default_connect_timeout, Route, RouteMatch, default_timeouts,
}
use ferroxy.Config.Workers.{auto}
use ferroxy.Config.Error.{unknown_upstream}
use ferroxy.Config.Validate.{
  ValidationOptions, check_logic, check_upstreams, check_upstream, check_tls, check_health,
  check_routes, check_route, check_retry, check_listeners,
}
use ferroxy.Config.Validate.Rules.{IsValidConfig}
use ferroxy.Config.Validate.Sound.{check_logic_sound, check_logic_complete}

abbrev server : ServerConfig
server = record {
  runtime = monoio;
  workers = auto;
  cpu_affinity = false;
  listen_http = codes "0.0.0.0:80" ∷ [];
  listen_https = [];
  listen_h3 = [];
  admin_listen = codes "127.0.0.1:9091";
  metrics_listen = codes "127.0.0.1:9090";
}

abbrev api : Upstream
api = record {
  name = codes "api";
  addrs = codes "10.0.0.1:80" ∷ [];
  protocol = http1;
  tls = none;
  lb = round_robin;
  pool = default_pool_limits;
  connect_timeout = default_connect_timeout;
  health_check = none;
}

abbrev match_host : RouteMatch
match_host = record {
  host = some (codes "example.com");
  path_prefix = none;
  path_exact = none;
  path_regex = none;
  headers = [];
}

abbrev route_to : Text → RouteMatch → Route (Unit {0})
route_to upstream m = record {
  match_ = m;
  upstream = upstream;
  timeouts = default_timeouts;
  retry = some (record { attempts = 2; on_status = 503 ∷ []; on_connect_error = true });
  filters = [];
}

abbrev config_of : Route (Unit {0}) → Config (Unit {0})
config_of r = record { server = server; tls = none; upstreams = api ∷ []; routes = r ∷ [] }

abbrev good : Config (Unit {0})
good = config_of (route_to (codes "api") match_host)

abbrev strict : ValidationOptions
strict = record { allow_insecure_tls = false }

good_accepted : check_logic good strict ≡ ok tt
unfolding check_logic check_upstreams check_upstream check_tls check_health check_routes check_route
    check_retry check_listeners text_eq
good_accepted = refl

unknown_rejected :
    check_logic (config_of (route_to (codes "web") match_host)) strict
    ≡ err (unknown_upstream 0 (codes "web"))
unfolding check_logic check_upstreams check_upstream check_tls check_health check_routes check_route
    check_retry check_listeners text_eq
unknown_rejected = refl

check_logic_sound_example : IsValidConfig strict good
check_logic_sound_example = check_logic_sound good strict good_accepted

good_is_valid : IsValidConfig strict good
good_is_valid = record {
  has_routes = refl;
  names_distinct = ((λ x. x), tt);
  upstream_rules = (record { has_addrs = refl; tls_rules = tt; health_rules = tt }, tt);
  route_rules = (
    record {
      upstream_declared = inl refl;
      constrained = refl;
      one_path = refl;
      retries = two_ne_zero;
    },
    tt,
  );
  listener_rules = refl;
}
  where
    two_ne_zero : let two : ℕ = 2 in two ≢ 0
    two_ne_zero e = absurd (omega arith)

check_logic_complete_example : check_logic good strict ≡ ok tt
check_logic_complete_example = check_logic_complete good strict good_is_valid
