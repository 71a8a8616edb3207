-- ===== src/Process/Main.antt =====
-- `main` of crates/conduit/src/main.rs up to `server.wait()`: what it starts, in which order, and where it
-- ends before. `starts t` says whether the system starts the thread `t`.
pub mod Threads
pub mod Entry
mod Tests
use ferroxy.Prelude.{ℕ, Bool, true, false, not, List, Option, none, some, is_empty, if◌then◌else◌}
use ferroxy.Prelude.Text.{Text}
use ferroxy.Prelude.Checked.{Checked, panic, done, ◌>>=◌}
use ferroxy.Prelude.Result.{Result, ok, err}
use ferroxy.Http.{Http}
use ferroxy.Config.Schema.{Config}
use ferroxy.Config.Error.{ConfigError}
use ferroxy.Config.Validate.{is_some}
use ferroxy.Io.Bind.{BindError}
use ferroxy.Io.Spawn.{Started, serve}
use ferroxy.Transport.Resolver.{ServerTls, ServerSettings}
use ferroxy.Upstream.Tls.{TlsLibrary}
use ferroxy.Process.{
  Running, Startup, exits, serves, start, build_serve_spec, build_dispatch_bundle, probes,
}
use ferroxy.Process.Planes.{spawn_h3_thread}
use ferroxy.Process.Shutdown.{Thread, https, h3, admin, health, reload, signal, Spawned}

-- `main` has returned a code, or comes to the wait with its cells, its HTTP server if it has one, and
-- the threads of the other planes.
pub data Entered (h : Http) (s : ServerTls) : Type 0 where
  exited : ℕ → Entered h s
  waits : Running h s → Option Started → Spawned → Entered h s

-- `Builder::spawn` with `expect`, where a thread is wanted.
unfoldable pub spawn_expect : Bool → Bool → Checked Bool
spawn_expect starts wanted = if wanted then (if starts then done true else panic) else done false

module _ {h : Http} {s : ServerTls} (starts : Thread → Bool) where
  unfoldable pub spawn_signal_thread :
      Running h s → Option Started → Spawned → Checked (Entered h s)
  spawn_signal_thread r server sp = do
    signals ← spawn_expect (starts signal) true
    done (waits r server sp)

  abbrev pub with_server : Running h s → Spawned → Result BindError Started → Checked (Entered h s)
  with_server r sp (err e) = done (exited 1)
  with_server r sp (ok server) = spawn_signal_thread r (some server) (record sp { has_http = true })

module _ (h : Http) (l : TlsLibrary) (s : ServerTls) {Q : Type 0}
    (quic : ServerSettings s → Option Q) (starts : Thread → Bool) {T : Type 0} where
  -- The threads beside those of plain HTTP. The HTTPS thread is wanted where its resolver is there.
  unfoldable pub spawn_background : Config T → Running h s → Checked Spawned
  spawn_background cfg r = do
    has_https ← spawn_expect (starts https) (is_some r.resolver)
    reloads ← spawn_expect (starts reload) true
    plane ← spawn_h3_thread s quic cfg
    has_h3 ← spawn_expect (starts h3) (is_some plane)
    has_health ← spawn_expect (starts health) (not (is_empty (probes h l r.primary cfg.upstreams)))
    done (record {
      has_http = false;
      has_https = has_https;
      has_h3 = has_h3;
      has_admin = starts admin;
      has_health = has_health;
    })

  module _ (clock : ℕ → Text → ℕ → ℕ) (available : Option ℕ) (bind : ℕ → Text → Option Text)
      (spawn : ℕ → Bool) where
    unfoldable pub serve_all : Config T → Checked (Entered h s)
    serve_all cfg = do
      r ← build_dispatch_bundle h l s clock cfg (build_serve_spec available cfg).workers
      sp ← spawn_background cfg r
      if is_empty cfg.server.listen_http
          then spawn_signal_thread starts r none sp
          else with_server starts r sp (serve bind spawn (build_serve_spec available cfg))

    abbrev go_on : Startup T → Checked (Entered h s)
    go_on (exits code) = done (exited code)
    go_on (serves cfg) = serve_all cfg

    unfoldable pub main : Bool → Result ConfigError (Config T) → Checked (Entered h s)
    main check loaded = go_on (start check loaded)
