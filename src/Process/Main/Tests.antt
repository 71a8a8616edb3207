-- ===== src/Process/Main/Tests.antt =====
-- Runs of `main` of crates/conduit/src/main.rs.
use ferroxy.Prelude.{ℕ, ◌≡◌, refl, Bool, true, false, [], ◌∷◌, Option, none, some, if◌then◌else◌}
use ferroxy.Prelude.Text.{Text, codes, text_eq}
use ferroxy.Prelude.Checked.{panic, done}
use ferroxy.Prelude.Result.{Result, ok, err}
use ferroxy.Http.Sample.{sample_http}
use ferroxy.Config.Schema.{Config, TlsConfig, v1_2}
use ferroxy.Config.Error.{ConfigError, no_routes}
use ferroxy.Lifecycle.Dispatch.Tests.Loaded.{config, sample_tls, built_at}
use ferroxy.Transport.Resolver.{
  ServerSettings, build_table, add_specs, add_key, load_spec, load_certs, read_certs, load_key,
  load_ocsp,
}
use ferroxy.Transport.Resolver.Tests.{files}
use ferroxy.Process.{
  Running, start, build_serve_spec, resolve_workers, build_dispatch_bundle, spawn_https_thread,
}
use ferroxy.Process.Shutdown.{Thread, Spawned}
use ferroxy.Process.Main.{exited, waits, spawn_expect, spawn_background, serve_all, main}
use ferroxy.Process.Main.Threads.{is_expected, certs_load}
use ferroxy.Process.Main.Entry.{Entry, main-Entry, main-no_plane}

abbrev clocks : ℕ → Text → ℕ → ℕ
clocks k = built_at

abbrev all_start : Thread → Bool
all_start t = true

abbrev binds : ℕ → Text → Option Text
binds k addr = some addr

abbrev quic : ServerSettings files → Option (ServerSettings files)
quic settings = some settings

abbrev spawns : ℕ → Bool
spawns idx = true

abbrev not_valid : Result ConfigError (Config (Unit {0}))
not_valid = err no_routes

bad_config :
    main sample_http sample_tls files quic all_start clocks none binds spawns true not_valid
    ≡ done (exited 2)
unfolding main start
bad_config = refl

abbrev no_threads : Thread → Bool
no_threads t = if is_expected t then false else true

cannot_start :
    main sample_http sample_tls files quic no_threads clocks none binds spawns false (ok config)
    ≡ panic
unfolding main start serve_all build_dispatch_bundle spawn_https_thread spawn_background
    spawn_expect
cannot_start = refl

one_worker : (build_serve_spec none config).workers ≡ 1
unfolding build_serve_spec resolve_workers
one_worker = refl

main-Entry_example :
    Entry sample_http sample_tls files quic all_start config clocks none binds spawns
      (main sample_http sample_tls files quic all_start clocks none binds spawns false (ok config))
main-Entry_example =
    main-Entry sample_http sample_tls files quic all_start config clocks none binds spawns 0
      one_worker

-- HTTPS alone, with a certificate that is not there.
abbrev lost : TlsConfig
lost = record {
  certs =
      record {
        sni = codes "a.example.com";
        cert = codes "gone";
        key = codes "gone";
        ocsp_response = none;
      }
      ∷ [];
  min_version = v1_2;
  alpn = [];
  session_tickets = true;
  ocsp_stapling = false;
  enable_0rtt = false;
}

abbrev https_only : Config (Unit {0})
https_only = record config {
  server = record config.server { listen_http = []; listen_https = codes "0.0.0.0:443" ∷ [] };
  tls = some lost;
}

not_loaded : certs_load files (some lost) ≡ false
unfolding build_table add_specs add_key load_spec load_certs read_certs load_key load_ocsp text_eq
not_loaded = refl

one_for_https : (build_serve_spec none https_only).workers ≡ 1
unfolding build_serve_spec resolve_workers
one_for_https = refl

main-no_plane_example :
    (r : Running sample_http files) × (sp : Spawned) × (main sample_http sample_tls files quic
        all_start clocks none binds spawns false
        (ok https_only)
      ≡ done (waits r none sp))
    × (sp.has_http ≡ false)
    × (sp.has_https ≡ false)
    × (sp.has_h3 ≡ false)
main-no_plane_example =
    main-no_plane sample_http sample_tls files quic all_start https_only clocks none binds spawns 0
      one_for_https (λ t e. refl) refl refl not_loaded
