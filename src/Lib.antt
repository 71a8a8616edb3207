-- ===== src/Lib.antt =====
-- A verification library for the conduit reverse proxy: its configuration, its routing table, the
-- path of a request to a backend and back, the counters of the data plane, the certificates, the
-- workers, and the process around them.
--
-- A request comes in through a server for HTTP/1, 2 or 3. The routing table
-- (crates/conduit-lifecycle) finds its route by host, path and headers, the route names an
-- upstream, and `Upstream::forward` (crates/conduit-upstream) sends the request to one of the
-- upstream's backends. A circuit breaker for each backend says whether requests may go to it, and
-- learns from what comes back. The configuration (crates/conduit-config) is parsed and validated
-- before any of this is built. `proxy_one` of the main program (crates/conduit) turns the outcome
-- into a response and counts it (crates/conduit-control). The program builds one dispatcher for
-- each worker (crates/conduit-io) and one for the other planes, and replaces all of them on a
-- SIGHUP, with the certificates (crates/conduit-transport). Active probes feed the breakers of the
-- dispatcher of the other planes.
--
-- Files and the code that they model:
--
-- Prelude, Prelude/*: names of the libraries passed on, Boolean tests, lists measured and indexed by
--   native numbers, machine words and durations, texts as bytes, association lists for `HashMap`,
--   `Result`, and `Checked` for code that may panic.
-- Http: the crates `http`, `hyper` and `regex` as a record of the types and calls that the program
--   uses, with the laws of `http` that a theorem relies on. Http/Sample is an instance for the tests.
-- Config/Schema, Config/Error, Config/Workers, Config/Duration: the files of the same names in
--   crates/conduit-config/src. Durations count nanoseconds, paths and addresses are texts.
-- Config/Validate: validate.rs, and `parse` and `load` of lib.rs. Rules states what a valid
--   configuration is; Sound relates the two.
-- Upstream/Breaker: breaker.rs of crates/conduit-upstream/src, method by method: `new`, `check`,
--   `snapshot`, `on_success`, `on_failure`. History runs it on the outcomes recorded so far.
-- Upstream/Retry: retry.rs, `decide_status`.
-- Upstream/Pool: the state of `Upstream` in lib.rs, its constructor, `pick_addr`, `breaker_state` and
--   `observe_breaker_outcome`. Reach is the step relation of these calls.
-- Upstream/Timed: timed.rs, `TimedBody::poll_frame`.
-- Upstream/Forward: `Upstream::forward` of lib.rs, cut at the places where it can return: `choose` (the
--   backend), `buffered` (the body), `attempts_loop` (the retries), `conclude` (the recorded outcome).
--   Until is the same code as a future that is dropped at one of its waits, as the total timeout does.
-- Upstream/Tls: `UpstreamTlsOptions`, `build_client_config` and `Upstream::with_tls` of lib.rs, with the
--   files, the PEM parser and rustls as parameters.
-- Upstream/Health: health.rs. `observe` is the body of the loop of `run_one`, `run_one` a run of it in
--   which requests and probes take turns on one breaker, `sleep_loop` the sleep between two probes.
-- Lifecycle/Route, Lifecycle/Bucket, Lifecycle/Table, Lifecycle/Upstreams, Lifecycle/Dispatch: `Route`,
--   `HostBucket`, `RouteTable`, `UpstreamMap` and `Dispatch` of crates/conduit-lifecycle/src/table.rs.
-- Proto/Body: `VecBody` of crates/conduit-proto/src/body.rs. Proto/Cancel: `Cancellation` of cancel.rs
--   there, with its flag in a store.
-- Control/Metrics: metrics.rs of crates/conduit-control/src. A method that counts is the list of its
--   `fetch_add` calls; Sums runs the calls of many requests in any interleaving, Histogram has the
--   arithmetic of cumulative buckets. `render_global` and `render_class` are the numbers of `render`.
-- Transport/Resolver: tls.rs of crates/conduit-transport/src: `load_certs`, `load_key`, `build_table`,
--   `lookup`, `resolve`, `reload`. Choice describes the answer on the plain list of certificates.
-- Io/Bind: `ServeSpec` and `BindError` of crates/conduit-io/src/lib.rs and the binding loop of `serve` in
--   tokio_worker.rs. Io/Socket: `bind` of bind.rs. Io/Spawn: the threads of `serve`, and what is special
--   to monoio_worker.rs. Io/Worker: `accept_loop`, the drain loop of `run_worker` and `Server::wait`;
--   Drain is about the counters and the drain loop, Exit about the exit code.
-- Control/Metrics/Page: the text of `render` and of `metrics_response`; Scrape is a reader of that text.
-- Control/Admin: `handle` of crates/conduit-control/src/admin.rs.
-- Proxy: `proxy_one`, `error_response` and `ProxyBody` of crates/conduit/src/main.rs. Counts is what one
--   request adds, Served what the counters give after many, Scraped what a reader of `/metrics` finds
--   then, Answered that every request is answered.
-- Http3: `serve_connection` and `drive_request` of crates/conduit-h3/src/lib.rs.
-- Process: `main` up to `build_serve_spec`, `resolve_workers`, `build_dispatch_bundle`,
--   `spawn_https_thread`, the body of the loop of `install_reload_handler`, the slots of
--   `start_http_server`, the list of `spawn_health_thread`, all of main.rs. Reached is the step relation.
-- Process/Stores: the stores of a reload one by one. Process/Slots: the cells of the worker threads.
-- Process/Planes: `spawn_h3_thread`, `run_https` and `run_h3`, and `serve_admin` of admin.rs.
-- Process/Shutdown: `main` from `server.wait()` on, `join_background`, `join_aux_threads`, and the two threads
--   for signals, which take turns in any order.
-- Process/Main: `main` up to `server.wait()`, with the threads that it spawns; whether a thread starts and
--   what `serve` finds are arguments. Threads is what it spawns, Entry where it stands then.
-- Process/View: `render_upstreams` of main.rs, with the entries of the map in any order.
--
-- Conventions. A `u32`, `u64` or `usize` (of 64 bits) is a natural number, with wrap-around and
-- saturation written out where the code has them. The clock and the HTTP client are arguments.
-- Methods on shared atomics are single steps; an interleaving of requests is a sequence of such
-- steps, and the order in which relaxed stores of one method become visible to other threads is
-- not modelled. The loops are structural: the retry loop on the rounds left, of which `forward`
-- gives it as many as the policy has attempts and at least one, and the scan for a backend on the
-- addresses left. The loop over the bounds of a histogram is structural too; the drain loop of a
-- worker and the sleep of a probe run on a number of rounds, with a theorem that says how many are
-- enough. A request on a dispatcher is one step of the process, and so is a reload; Process/Stores
-- takes the reload apart into its stores. Requests that are under way during a reload end on the
-- dispatcher that they began with, which no new request sees.
--
-- Not modelled: sockets, runtimes and handshakes, which are parameters; the adapters for HTTP/1 and
-- HTTP/2 (crates/conduit-h1, -h2), which only call libraries; the set-up of the log; the texts of
-- floating-point numbers; and what happens to a signal before its handler is installed. The monoio
-- backend has the loops of the tokio backend; its sum of the counters is modelled too.
mod Prelude
pub mod Http
pub mod Config
pub mod Upstream
pub mod Lifecycle
pub mod Proto
pub mod Control
pub mod Transport
pub mod Io
pub mod Proxy
pub mod Process
pub mod Http3
