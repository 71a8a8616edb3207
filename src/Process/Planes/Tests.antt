-- ===== src/Process/Planes/Tests.antt =====
-- Planes of crates/conduit/src/main.rs at concrete inputs.
use ferroxy.Prelude.{
  ℕ, ◌≡◌, refl, true, false, Bool, List, [], ◌∷◌, Option, none, some, if◌then◌else◌,
}
use ferroxy.Prelude.Text.{Text, codes, text_eq}
use ferroxy.Prelude.Result.{ok}
use ferroxy.Config.Schema.{Config, TlsConfig, v1_2}
use ferroxy.Config.Validate.{
  check_logic, check_upstreams, check_upstream, check_tls, check_health, check_routes, check_route,
  check_retry, check_listeners,
}
use ferroxy.Lifecycle.Dispatch.Tests.Loaded
use ferroxy.Lifecycle.Dispatch.Tests.Loaded.{strict}
use ferroxy.Transport.Resolver.Tests.{three}
use ferroxy.Process.Planes.{
  Poll, failed, timed_out, run_plane, run_https, gave_up, ended, http1, http2, server_for,
}

abbrev tls : TlsConfig
tls = record {
  certs = three;
  min_version = v1_2;
  alpn = [];
  session_tickets = true;
  ocsp_stapling = false;
  enable_0rtt = true;
}

abbrev with_h3 : Config (Unit {0})
with_h3 = record Loaded.config {
  server = record Loaded.config.server { listen_h3 = codes "0.0.0.0:443" ∷ [] };
  tls = some tls;
}

accepted : check_logic with_h3 strict ≡ ok tt
unfolding check_logic check_upstreams check_upstream check_tls check_health check_routes check_route
    check_retry check_listeners text_eq
accepted = refl

-- A listener is its number; its rounds give a connection, an error, and the flag.
abbrev rounds : ℕ → List (Bool × Poll ℕ)
rounds l = (false, Poll.accepted l) ∷ (false, failed) ∷ (true, timed_out) ∷ []

abbrev bound : Text → Option ℕ
bound addr = some 7

one_connection : run_https rounds bound (codes "a" ∷ []) ≡ ended ((7 ∷ []) ∷ [])
unfolding run_plane
one_connection = refl

picks_server :
    (server_for (some (some (codes "h2"))) ≡ some http2)
    × (server_for (some (some (codes "http/1.1"))) ≡ some http1)
    × (server_for (some none) ≡ some http1)
    × (server_for none ≡ none)
unfolding server_for text_eq
picks_server = (refl, refl, refl, refl)

-- An address that cannot be bound stops the whole plane.
gives_up :
    run_plane rounds
      (λ addr. if text_eq addr (codes "b") then none else some 1)
      (codes "a" ∷ codes "b" ∷ [])
    ≡ gave_up (codes "b")
unfolding run_plane text_eq
gives_up = refl
