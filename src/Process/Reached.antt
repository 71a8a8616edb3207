-- ===== src/Process/Reached.antt =====
-- The states that the process goes through by reloads and requests, and what holds in all of them.
use ferroxy.Prelude.{
  ℕ, zero, suc, ◌+◌, ◌<◌, ◌≡◌, refl, ◌∙◌, subst, List, [], ◌∷◌, Option, some, length, get_elem?,
  set, All, All-get_elem?, u64_mod,
}
use ferroxy.Prelude.Text.{Text}
use ferroxy.Prelude.Checked.{Checked, panic, done, ◌>>=◌}
use ferroxy.Prelude.Result.{Result, ok, err}
use ferroxy.Http.{Http}
use ferroxy.Config.Schema.{Config, TlsConfig}
use ferroxy.Config.Schema
use ferroxy.Config.Error.{ConfigError}
use ferroxy.Control.Metrics.{Add}
use ferroxy.Lifecycle.Dispatch.{Dispatch, from_config}
use ferroxy.Lifecycle.Table
use ferroxy.Lifecycle.Upstreams.Valid.{IsValidMap, from_config-IsValidMap}
use ferroxy.Proxy.{ProxyBody, proxy_one}
use ferroxy.Proxy.Answered.{proxy_one_total}
use ferroxy.Transport.Resolver.{ServerTls, CertTable}
use ferroxy.Upstream.Forward.{Request, Response, Reply, Outgoing}
use ferroxy.Upstream.Tls.{TlsLibrary}
use ferroxy.Process.{
  Running, build_swaps, build_dispatch_bundle, on_sighup, reload_certs, spawn_https_thread,
}

-- A `Vec` of addresses has fewer than 2^64 of them.
abbrev pub Fits : {T : Type 0} → Config T → Type 0
Fits cfg = All (λ (u : Schema.Upstream). length u.addrs < u64_mod) cfg.upstreams

abbrev pub Loaded : {T : Type 0} → Result ConfigError (Config T) → Type 0
Loaded (err e) = Unit
Loaded (ok cfg) = Fits cfg

-- The configuration in force after a reload.
abbrev pub latest : {T : Type 0} → Result ConfigError (Config T) → Config T → Config T
latest (err e) cfg = cfg
latest (ok fresh) cfg = fresh

-- A request through the proxy, with its outcome.
module _ (h : Http) (headers : h.HeaderMap) where
  abbrev pub ProxyRun : Dispatch h → Response h (ProxyBody h) × List Add × Dispatch h → Type 0
  ProxyRun d out =
      (client : ℕ → Outgoing h → Reply h) × (clock : ℕ → ℕ) × (cut : ℕ → Option ℕ) × (elapsed : ℕ)
      × (req : Request h) × (proxy_one h (some headers) client clock cut elapsed d req ≡ done out)

module _ (h : Http) (headers : h.HeaderMap) (l : TlsLibrary) (s : ServerTls) {T : Type 0} where
  -- The process runs with a configuration: it has started, has got a SIGHUP, or has served a request on
  -- the cell of the other planes or on that of a worker.
  pub data Reached : Config T → Running h s → Type 0 where
    begun :
        (clock : ℕ → Text → ℕ → ℕ) (cfg : Config T) (n : ℕ) (r : Running h s)
        → Fits cfg
        → build_dispatch_bundle h l s clock cfg n ≡ done r
        → Reached cfg r
    reloaded :
        (clock : ℕ → Text → ℕ → ℕ) (cfg : Config T) (r r' : Running h s)
        (result : Result ConfigError (Config T))
        → Reached cfg r
        → Loaded result
        → on_sighup h l clock result r ≡ done r'
        → Reached (latest result cfg) r'
    served :
        (cfg : Config T) (r : Running h s) (out : Response h (ProxyBody h) × List Add × Dispatch h)
        → Reached cfg r
        → ProxyRun h headers r.primary out
        → Reached cfg (record r { primary = out.2 })
    served_by :
        (cfg : Config T) (r : Running h s) (i : ℕ) (d : Dispatch h)
        (out : Response h (ProxyBody h) × List Add × Dispatch h)
        → Reached cfg r
        → get_elem? r.http_workers i ≡ some d
        → ProxyRun h headers d out
        → Reached cfg (record r { http_workers = set r.http_workers i out.2 })

  -- A dispatcher with the routes of a configuration, and valid upstreams.
  pub record Serves (cfg : Config T) (d : Dispatch h) : Type 0 where
    pub routes_eq : d.routes ≡ Table.from_config h cfg
    pub upstreams_valid : IsValidMap d.upstreams

  pub record AllServe (cfg : Config T) (r : Running h s) : Type 0 where
    pub primary_serves : Serves cfg r.primary
    pub workers_serve : All (Serves cfg) r.http_workers

  pub from_config-Serves :
      (clock : Text → ℕ → ℕ) (cfg : Config T) → Fits cfg → Serves cfg (from_config h l clock cfg)
  unfolding from_config
  from_config-Serves clock cfg f = record {
    routes_eq = refl;
    upstreams_valid = from_config-IsValidMap l clock cfg f;
  }

  build_swaps-Serves :
      (clock : ℕ → Text → ℕ → ℕ) (cfg : Config T) (n k : ℕ)
      → Fits cfg
      → All (Serves cfg) (build_swaps h l clock cfg n k)
  unfolding build_swaps
  build_swaps-Serves clock cfg zero k f = tt
  build_swaps-Serves clock cfg (suc n) k f =
      (from_config-Serves (clock k) cfg f, build_swaps-Serves clock cfg n (k + 1) f)

  pub run-Serves :
      (cfg : Config T) (d : Dispatch h) (out : Response h (ProxyBody h) × List Add × Dispatch h)
      → ProxyRun h headers d out
      → Serves cfg d
      → Serves cfg out.2
  run-Serves cfg d out (client, clock, cut, elapsed, req, e) v =
      let (handled, out', a, e', b, valid, routes) =
        proxy_one_total h headers client clock cut elapsed d req v.upstreams_valid in
      let q : out' ≡ out = cc in
      subst (λ (o : Response h (ProxyBody h) × List Add × Dispatch h). Serves cfg o.2) q
        (record { routes_eq = routes ∙ v.routes_eq; upstreams_valid = valid })

  All-set :
      (cfg : Config T) (ds : List (Dispatch h)) (i : ℕ) (d : Dispatch h)
      → All (Serves cfg) ds
      → Serves cfg d
      → All (Serves cfg) (set ds i d)
  All-set cfg [] i d a v = tt
  All-set cfg (x ∷ ds) zero d a v = (v, a.1)
  All-set cfg (x ∷ ds) (suc i) d a v = (a.0, All-set cfg ds i d a.1 v)

  abbrev bundle : (ℕ → Text → ℕ → ℕ) → Config T → ℕ → Option (CertTable s) → Running h s
  bundle clock cfg n resolver = record {
    primary = from_config h l (clock 0) cfg;
    http_workers = build_swaps h l clock cfg n 1;
    resolver = resolver;
  }

  bundle-AllServe :
      (clock : ℕ → Text → ℕ → ℕ) (cfg : Config T) (n : ℕ) (r : Running h s)
      (c : Checked (Option (CertTable s)))
      → Fits cfg
      → (do resolver ← c; done (bundle clock cfg n resolver)) ≡ done r
      → AllServe cfg r
  bundle-AllServe clock cfg n r panic f e = cc
  bundle-AllServe clock cfg n r (done c) f e =
      let q : bundle clock cfg n c ≡ r = cc in
      subst (AllServe cfg) q (record {
        primary_serves = from_config-Serves (clock 0) cfg f;
        workers_serve = build_swaps-Serves clock cfg n 1 f;
      })

  reload-AllServe :
      (clock : ℕ → Text → ℕ → ℕ) (cfg : Config T) (r r' : Running h s)
      (result : Result ConfigError (Config T))
      → AllServe cfg r
      → Loaded result
      → on_sighup h l clock result r ≡ done r'
      → AllServe (latest result cfg) r'
  unfolding on_sighup
  reload-AllServe clock cfg r r' (err x) a f e = let q : r ≡ r' = cc in subst (AllServe cfg) q a
  reload-AllServe clock cfg r r' (ok fresh) a f e =
      bundle-AllServe clock fresh (length r.http_workers) r' (reload_certs r.resolver fresh.tls) f e

  -- Whatever reloads and requests the process has been through, every dispatcher has the routes of the
  -- last configuration that loaded, and valid upstreams only.
  pub Reached-AllServe : (cfg : Config T) (r : Running h s) → Reached cfg r → AllServe cfg r
  unfolding build_dispatch_bundle
  Reached-AllServe cfg r (begun clock _ n _ f e) =
      bundle-AllServe clock cfg n r (spawn_https_thread h l s cfg) f e
  Reached-AllServe _ r (reloaded clock cfg before _ result p f e) =
      reload-AllServe clock cfg before r result (Reached-AllServe cfg before p) f e
  Reached-AllServe cfg _ (served _ r out p q) =
      let a = Reached-AllServe cfg r p in
      record {
        primary_serves = run-Serves cfg r.primary out q a.primary_serves;
        workers_serve = a.workers_serve;
      }
  Reached-AllServe cfg _ (served_by _ r i d out p g q) =
      let a = Reached-AllServe cfg r p in
      record {
        primary_serves = a.primary_serves;
        workers_serve = All-set cfg r.http_workers i out.2 a.workers_serve (
            run-Serves cfg d out q
              (All-get_elem? (Serves cfg) r.http_workers i d a.workers_serve g));
      }
