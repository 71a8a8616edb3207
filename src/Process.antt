-- ===== src/Process.antt =====
-- crates/conduit/src/main.rs: start-up, the dispatchers of the planes, and hot reload. A swappable cell is its
-- current content. `clock k` gives the instants at which the breakers of the dispatcher `k` are built.
pub mod Reached
pub mod Answers
pub mod View
pub mod Shutdown
pub mod Stores
pub mod Planes
pub mod Slots
pub mod Main
mod Tests
use ferroxy.Prelude.{
  ℕ, zero, suc, ◌+◌, ◌%◌, ◌&&◌, ◌==◌, Bool, true, false, List, [], ◌∷◌, Option, none, some,
  is_empty, if◌then◌else◌, length, get_elem?, u64_mod,
}
use ferroxy.Prelude.Text.{Text}
use ferroxy.Prelude.Checked.{Checked, panic, done, expect, ◌>>=◌}
use ferroxy.Prelude.Result.{Result, ok, err}
use ferroxy.Http.{Http}
use ferroxy.Config.Schema.{Config, TlsConfig, HealthCheck}
use ferroxy.Config.Schema
use ferroxy.Config.Error.{ConfigError}
use ferroxy.Config.Workers.{Workers, auto, count}
use ferroxy.Io.Bind.{ServeSpec}
use ferroxy.Io.Bind
use ferroxy.Lifecycle.Dispatch.{Dispatch, from_config}
use ferroxy.Lifecycle.Upstreams.{get, tls_options}
use ferroxy.Transport.Resolver.{
  ServerTls, CertTable, TlsError, ServerSettings, load_server_config_with_resolver, reload,
}
use ferroxy.Upstream.Health.{Probe, ProbeConfig}
use ferroxy.Upstream.Health
use ferroxy.Upstream.Pool.{Upstream}
use ferroxy.Upstream.Tls.{TlsLibrary, TlsLoadError}

-- What `main` does with the result of `load`: exit with a code, or serve.
pub data Startup (T : Type 0) : Type 0 where
  exits : ℕ → Startup T
  serves : Config T → Startup T

abbrev pub no_listeners : {T : Type 0} → Config T → Bool
no_listeners cfg =
    is_empty cfg.server.listen_http
    && is_empty cfg.server.listen_https
    && is_empty cfg.server.listen_h3

unfoldable pub start : {T : Type 0} → Bool → Result ConfigError (Config T) → Startup T
start check (err e) = exits 2
start check (ok cfg) = if check then exits 0 else if no_listeners cfg then exits 78 else serves cfg

-- `available_parallelism` is what the system answers, if it does.
unfoldable pub resolve_workers : Option ℕ → Workers → ℕ
resolve_workers none auto = 1
resolve_workers (some n) auto = n
resolve_workers available (count n) = n

unfoldable pub build_serve_spec : {T : Type 0} → Option ℕ → Config T → ServeSpec
build_serve_spec available cfg =
    let spec = Bind.new cfg.server.listen_http (resolve_workers available cfg.server.workers) in
    record spec { cpu_affinity = cfg.server.cpu_affinity }

-- The cells of the bundle, and the table of the certificate resolver if HTTPS is served.
pub record Running (h : Http) (s : ServerTls) : Type 0 where
  pub primary : Dispatch h
  pub http_workers : List (Dispatch h)
  pub resolver : Option (CertTable s)

abbrev pub https_table :
    {s : ServerTls}
    → Checked (Result TlsError (ServerSettings s × CertTable s))
    → Checked (Option (CertTable s))
https_table panic = panic
https_table (done (err e)) = done none
https_table (done (ok (settings, table))) = done (some table)

abbrev pub reload_certs :
    {s : ServerTls} → Option (CertTable s) → Option TlsConfig → Checked (Option (CertTable s))
reload_certs {s} (some table) (some tls) = do
  reloaded ← reload s tls.certs table
  done (some reloaded.1)
reload_certs resolver tls = done resolver

module _ (h : Http) (l : TlsLibrary) {T : Type 0} where
  -- Dispatchers built one after the other, from the number `k` on.
  unfoldable pub build_swaps : (ℕ → Text → ℕ → ℕ) → Config T → ℕ → ℕ → List (Dispatch h)
  build_swaps clock cfg zero k = []
  build_swaps clock cfg (suc n) k = from_config h l (clock k) cfg ∷ build_swaps clock cfg n (k + 1)

  -- The resolver that `spawn_https_thread` leaves behind.
  unfoldable pub spawn_https_thread : (s : ServerTls) → Config T → Checked (Option (CertTable s))
  spawn_https_thread s cfg = if is_empty cfg.server.listen_https then done none else elim cfg.tls [
    | none ↦ done none
    | some tls ↦ https_table (load_server_config_with_resolver s tls)
  ]

  -- `build_dispatch_bundle` and the start of the HTTPS plane.
  unfoldable pub build_dispatch_bundle :
      (s : ServerTls) → (ℕ → Text → ℕ → ℕ) → Config T → ℕ → Checked (Running h s)
  unfolding build_swaps spawn_https_thread
  build_dispatch_bundle s clock cfg n_http_workers = do
    resolver ← spawn_https_thread s cfg
    done (record {
      primary = from_config h l (clock 0) cfg;
      http_workers = build_swaps clock cfg n_http_workers 1;
      resolver = resolver;
    })

  -- One SIGHUP, by the result of `load`.
  unfoldable pub on_sighup :
      {s : ServerTls}
      → (ℕ → Text → ℕ → ℕ)
      → Result ConfigError (Config T)
      → Running h s
      → Checked (Running h s)
  unfolding build_swaps
  on_sighup clock (err e) r = done r
  on_sighup clock (ok cfg) r = do
    resolver ← reload_certs r.resolver cfg.tls
    done (record {
      primary = from_config h l (clock 0) cfg;
      http_workers = build_swaps clock cfg (length r.http_workers) 1;
      resolver = resolver;
    })

-- The slot that the call `k` of `setup` takes, counted by `fetch_add`.
unfoldable pub worker_slot : {h : Http} → List (Dispatch h) → ℕ → Checked (Dispatch h)
worker_slot workers k =
    if length workers == 0 then panic else expect (get_elem? workers (k % u64_mod % length workers))

-- The probes of `spawn_health_thread`: none where an upstream has no check or no entry, or its TLS
-- files do not load.
module _ (h : Http) (l : TlsLibrary) where
  abbrev probe_config : HealthCheck → Option Schema.UpstreamTls → ProbeConfig
  probe_config hc tls = record {
    path = hc.path;
    interval = hc.interval;
    timeout = hc.timeout;
    unhealthy_threshold = hc.unhealthy_threshold;
    healthy_threshold = hc.healthy_threshold;
    tls = tls_options tls;
  }

  abbrev built_probe : Result TlsLoadError (Probe l) → List (Probe l) → List (Probe l)
  built_probe (ok p) ps = p ∷ ps
  built_probe (err e) ps = ps

  abbrev probe_of :
      Schema.Upstream → Option HealthCheck → Option Upstream → List (Probe l) → List (Probe l)
  probe_of u none entry ps = ps
  probe_of u (some hc) none ps = ps
  probe_of u (some hc) (some up) ps =
      built_probe (Health.new l up.addrs up.breakers (probe_config hc u.tls)) ps

  unfoldable pub probes : Dispatch h → List Schema.Upstream → List (Probe l)
  probes snapshot [] = []
  probes snapshot (u ∷ us) =
      probe_of u u.health_check (get snapshot.upstreams u.name) (probes snapshot us)
