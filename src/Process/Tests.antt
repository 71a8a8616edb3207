-- ===== src/Process/Tests.antt =====
-- A process with one worker: it starts, a SIGHUP fails, and requests are answered.
use ferroxy.Prelude.{
  ℕ, ◌≡◌, refl, true, false, List, [], ◌∷◌, none, some, length, get_elem?, ◌+◌, ◌*◌, ◌<◌, u64_mod,
}
use ferroxy.Prelude.Text.{Text}
use ferroxy.Prelude.Checked.{done}
use ferroxy.Prelude.Result.{ok, err}
use ferroxy.Http.Sample.{sample_http}
use ferroxy.Config.Error.{no_routes}
use ferroxy.Config.Workers.{auto}
use ferroxy.Control.Metrics.{Add}
use ferroxy.Lifecycle.Dispatch.{Dispatch, from_config, route_of, host_of}
use ferroxy.Lifecycle.Dispatch.Tests.{clock, unreachable, too_slow, get_index}
use ferroxy.Lifecycle.Dispatch.Tests.Loaded.{config, sample_tls, few_addrs, built_at}
use ferroxy.Lifecycle.Table
use ferroxy.Proxy.{ProxyBody, proxy_one}
use ferroxy.Transport.Resolver.Tests.{files}
use ferroxy.Upstream.Forward.{Response}
use ferroxy.Process.{
  Running, exits, serves, start, resolve_workers, build_dispatch_bundle, build_swaps,
  spawn_https_thread, on_sighup, worker_slot, build_serve_spec,
}
use ferroxy.Process.Reached.{Reached, begun, reloaded, AllServe, Reached-AllServe, latest, Serves}
use ferroxy.Process.Stores.{
  swappables, store_cell, Storing, loaded, stored, in_force, Storing-Serves,
}
use ferroxy.Process.Slots.{serve-cells}
use ferroxy.Io.Bind.{serve_bound, bind_all, bind_rest}
use ferroxy.Io.Spawn.{Started, serve}
use ferroxy.Process.Answers.{Refreshed, on_sighup_total, Reached-answers}

serves_config : start false (ok config) ≡ serves config
unfolding start
serves_config = refl

bad_config : start {T = Unit} true (err no_routes) ≡ exits 2
unfolding start
bad_config = refl

no_parallelism : resolve_workers none auto ≡ 1
unfolding resolve_workers
no_parallelism = refl

abbrev clocks : ℕ → Text → ℕ → ℕ
clocks k = built_at

abbrev running : Running sample_http files
running = record {
  primary = from_config sample_http sample_tls built_at config;
  http_workers = from_config sample_http sample_tls built_at config ∷ [];
  resolver = none;
}

begins : build_dispatch_bundle sample_http sample_tls files clocks config 1 ≡ done running
unfolding build_dispatch_bundle build_swaps spawn_https_thread
begins = refl

abbrev plain : List (Text × Text)
plain = []

wraps_around :
    worker_slot running.http_workers 5 ≡ done (from_config sample_http sample_tls built_at config)
unfolding worker_slot
wraps_around = refl

failed_reload :
    on_sighup sample_http sample_tls {T = Unit {0}} clocks (err no_routes) running ≡ done running
unfolding on_sighup
failed_reload = refl

after_reload : Reached sample_http plain sample_tls files config running
after_reload =
    reloaded clocks config running running (err no_routes)
      (begun clocks config 1 running few_addrs begins) tt failed_reload

Reached-AllServe_example : AllServe sample_http plain sample_tls files config running
Reached-AllServe_example =
    Reached-AllServe sample_http plain sample_tls files config running after_reload

on_sighup_total_example :
    (r' : Running sample_http files) × (on_sighup sample_http sample_tls clocks (ok config) running
      ≡ done r')
    × (length r'.http_workers ≡ length running.http_workers)
    × Refreshed (latest (ok config) config).tls running.resolver r'.resolver
on_sighup_total_example =
    on_sighup_total sample_http sample_tls files clocks config running (ok config)

Reached-answers_example :
    (out : Response sample_http (ProxyBody sample_http) × List Add × Dispatch sample_http)
    × (proxy_one sample_http (some plain) unreachable clock too_slow 7 running.primary get_index
        ≡ done out)
    × (route_of sample_http running.primary get_index
        ≡ Table.find sample_http
            (sample_http.uri_path get_index.parts.uri)
            get_index.parts.headers
            (Table.from_config sample_http config)
            (host_of sample_http get_index))
    × (route_of sample_http running.primary get_index ≡ none → out.0.status ≡ 404)
Reached-answers_example =
    Reached-answers sample_http sample_tls files plain config running 0 running.primary unreachable
      clock too_slow 7 get_index after_reload refl

-- One of the two cells of the process is stored.
half_stored :
    Storing sample_http plain sample_tls files config config
      (store_cell sample_http sample_tls clocks config (swappables running) 0)
      1
half_stored = stored clocks (swappables running) 0 (
    loaded running
      (Reached-AllServe sample_http plain sample_tls files config running after_reload))

Storing-Serves_example :
    Serves sample_http plain sample_tls files
      (in_force sample_http plain sample_tls files config config 1 0)
      (from_config sample_http sample_tls (clocks 0) config)
Storing-Serves_example =
    Storing-Serves sample_http plain sample_tls files config config
      (store_cell sample_http sample_tls clocks config (swappables running) 0) 1 0
      (from_config sample_http sample_tls (clocks 0) config) few_addrs half_stored
      (unfold store_cell swappables in refl)

abbrev serving : Started
serving = record {
  threads = (0, config.server.listen_http) ∷ [];
  local_addrs = config.server.listen_http;
}

one_worker : (build_serve_spec (some 1) config).workers ≡ 1
unfolding build_serve_spec resolve_workers
one_worker = refl

serves_one : serve (λ k a. some a) (λ k. true) (build_serve_spec (some 1) config) ≡ ok serving
unfolding serve serve_bound bind_all bind_rest build_serve_spec resolve_workers
serves_one = refl

serve-cells_example :
    (length serving.threads ≡ length running.http_workers)
    × ((i j : ℕ)
        → i < length serving.threads
        → j * length serving.threads + i < u64_mod
        → (d : Dispatch sample_http) × (get_elem? running.http_workers i ≡ some d)
          × (worker_slot running.http_workers (j * length serving.threads + i) ≡ done d))
serve-cells_example =
    serve-cells sample_http sample_tls files clocks config (some 1) (λ k a. some a) (λ k. true)
      running serving 0 one_worker (rw one_worker begins) serves_one
