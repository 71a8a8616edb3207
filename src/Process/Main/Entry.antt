-- ===== src/Process/Main/Entry.antt =====
-- Where `main` of crates/conduit/src/main.rs stands before `server.wait()`.
use ferroxy.Prelude.{
  ℕ, suc, ◌≡◌, refl, sym, ◌∙◌, inl, inr, Bool, Bool-cases, true, false, not, ◌&&◌, Option, none,
  some, is_empty, length, if◌then◌else◌,
}
use ferroxy.Prelude.Text.{Text}
use ferroxy.Prelude.Checked.{Checked, panic, done, ◌>>=◌}
use ferroxy.Prelude.Result.{ok, err, Result-cases}
use ferroxy.Http.{Http}
use ferroxy.Config.Schema.{Config}
use ferroxy.Io.Bind.{BindError}
use ferroxy.Io.Spawn.{Started, serve}
use ferroxy.Transport.Resolver.{ServerTls, ServerSettings}
use ferroxy.Lifecycle.Dispatch.{from_config}
use ferroxy.Upstream.Tls.{TlsLibrary}
use ferroxy.Process.{
  Running, no_listeners, start, build_serve_spec, build_dispatch_bundle, build_swaps,
}
use ferroxy.Process.Slots.{threads_of}
use ferroxy.Process.Answers.{length-build_swaps}
use ferroxy.Process.Shutdown.{Thread, signal, Spawned}
use ferroxy.Process.Main.Threads.{
  is_expected, certs_load, Planes, Backed, no_thread, backed, spawn_background_lem,
  spawn_https_thread_lem, spawn_expect_lem,
}
use ferroxy.Process.Main.{
  Entered, exited, waits, spawn_background, spawn_signal_thread, with_server, serve_all, main,
}

and_false : (b : Bool) → (b && false) ≡ false
and_false true = refl
and_false false = refl

module _ (h : Http) (l : TlsLibrary) (s : ServerTls) {Q : Type 0}
    (quic : ServerSettings s → Option Q) (starts : Thread → Bool) {T : Type 0} (cfg : Config T)
    (clock : ℕ → Text → ℕ → ℕ) (available : Option ℕ) (bind : ℕ → Text → Option Text)
    (spawn : ℕ → Bool) where
  -- The ways in which a configuration that has loaded can go.
  pub data Entry : Checked (Entered h s) → Type 0 where
    nothing_to_serve : no_listeners cfg ≡ true → Entry (done (exited 78))
    thread_missing : (t : Thread) → is_expected t ≡ true → starts t ≡ false → Entry panic
    bind_fails :
        (e : BindError)
        → is_empty cfg.server.listen_http ≡ false
        → serve bind spawn (build_serve_spec available cfg) ≡ err e
        → Entry (done (exited 1))
    with_http :
        (r : Running h s) (server : Started) (sp : Spawned)
        → is_empty cfg.server.listen_http ≡ false
        → serve bind spawn (build_serve_spec available cfg) ≡ ok server
        → length server.threads ≡ length r.http_workers
        → sp.has_http ≡ true
        → Planes h l s quic starts cfg r sp
        → Entry (done (waits r (some server) sp))
    without_http :
        (r : Running h s) (sp : Spawned)
        → is_empty cfg.server.listen_http ≡ true
        → no_listeners cfg ≡ false
        → sp.has_http ≡ false
        → Planes h l s quic starts cfg r sp
        → Entry (done (waits r none sp))

  with_server-Entry :
      (n : ℕ) (r : Running h s) (sp : Spawned)
      → (build_serve_spec available cfg).workers ≡ suc n
      → length r.http_workers ≡ (build_serve_spec available cfg).workers
      → is_empty cfg.server.listen_http ≡ false
      → Planes h l s quic starts cfg r sp
      → Entry (with_server starts r sp (serve bind spawn (build_serve_spec available cfg)))
  unfolding spawn_signal_thread
  with_server-Entry n r sp w len x planes =
      elim (Result-cases (serve bind spawn (build_serve_spec available cfg))) [
        | inl (e, q) ↦ rw q (bind_fails e x q)
        | inr (server, q) ↦ elim (spawn_expect_lem (starts signal) true) [
          | inl (d, e) ↦ rw (q, e) (thread_missing signal refl d)
          | inr e ↦
              rw (q, e)
                (with_http r server (record sp { has_http = true }) x q
                  (threads_of bind spawn (build_serve_spec available cfg) server n w q ∙ sym len)
                  refl
                  (record {
                    https_eq = planes.https_eq;
                    h3_eq = planes.h3_eq;
                    admin_eq = planes.admin_eq;
                    health_eq = planes.health_eq;
                  }))
        ]
      ]

  listen-Entry :
      (n : ℕ) (r : Running h s) (c : Checked Spawned)
      → (build_serve_spec available cfg).workers ≡ suc n
      → length r.http_workers ≡ (build_serve_spec available cfg).workers
      → no_listeners cfg ≡ false
      → Backed h l s quic starts cfg r c
      → Entry (do
        sp ← c
        if is_empty cfg.server.listen_http
            then spawn_signal_thread starts r none sp
            else with_server starts r sp (serve bind spawn (build_serve_spec available cfg)))
  unfolding spawn_signal_thread
  listen-Entry n r _ w len some_ (no_thread t e d) = thread_missing t e d
  listen-Entry n r _ w len some_ (backed sp b planes) =
      elim (Bool-cases (is_empty cfg.server.listen_http)) [
        | inr x ↦ rw x (with_server-Entry n r sp w len x planes)
        | inl x ↦ elim (spawn_expect_lem (starts signal) true) [
          | inl (d, e) ↦ rw (x, e) (thread_missing signal refl d)
          | inr e ↦ rw (x, e) (without_http r sp x some_ b planes)
        ]
      ]

  -- With at least one worker, a process whose configuration has loaded goes one of these ways, and
  -- panics only where a thread that it needs does not start.
  pub main-Entry :
      (n : ℕ)
      → (build_serve_spec available cfg).workers ≡ suc n
      → Entry (main h l s quic starts clock available bind spawn false (ok cfg))
  unfolding main serve_all start build_dispatch_bundle
  main-Entry n w = elim (Bool-cases (no_listeners cfg)) [
    | inl x ↦ rw x (nothing_to_serve x)
    | inr x ↦
        let (resolver, e, f) = spawn_https_thread_lem s h l cfg in
        let r : Running h s = record {
          primary = from_config h l (clock 0) cfg;
          http_workers = build_swaps h l clock cfg (build_serve_spec available cfg).workers 1;
          resolver = resolver;
        } in
        rw (x, e)
          (listen-Entry n r (spawn_background h l s quic starts cfg r) w
            (length-build_swaps h l clock cfg (build_serve_spec available cfg).workers 1) x
            (spawn_background_lem h l s quic starts cfg r f))
  ]

  left_alone :
      (c : Checked (Entered h s))
      → Entry c
      → ((t : Thread) → is_expected t ≡ true → starts t ≡ true)
      → is_empty cfg.server.listen_http ≡ true
      → no_listeners cfg ≡ false
      → certs_load s cfg.tls ≡ false
      → (r : Running h s) × (sp : Spawned) × (c ≡ done (waits r none sp))
        × (sp.has_http ≡ false)
        × (sp.has_https ≡ false)
        × (sp.has_h3 ≡ false)
  left_alone _ (nothing_to_serve x) up x1 x2 x3 = cc
  left_alone _ (thread_missing t e d) up x1 x2 x3 = let q = up t e in cc
  left_alone _ (bind_fails e x q) up x1 x2 x3 = cc
  left_alone _ (with_http r server sp x q len b planes) up x1 x2 x3 = cc
  left_alone _ (without_http r sp x some_ b planes) up x1 x2 x3 = (
    r,
    sp,
    refl,
    b,
    planes.https_eq ∙ rw x3 (and_false _),
    planes.h3_eq ∙ rw (x3, and_false (not (is_empty cfg.server.listen_h3))) refl,
  )

  -- With at least one worker, HTTPS or HTTP/3 listeners but none for plain HTTP, and certificates that
  -- do not load, the process comes to its wait with no plane that serves the proxy, where every thread
  -- that it needs starts.
  pub main-no_plane :
      (n : ℕ)
      → (build_serve_spec available cfg).workers ≡ suc n
      → ((t : Thread) → is_expected t ≡ true → starts t ≡ true)
      → is_empty cfg.server.listen_http ≡ true
      → no_listeners cfg ≡ false
      → certs_load s cfg.tls ≡ false
      → (r : Running h s) × (sp : Spawned) × (main h l s quic starts clock available bind spawn
            false
            (ok cfg)
          ≡ done (waits r none sp))
        × (sp.has_http ≡ false)
        × (sp.has_https ≡ false)
        × (sp.has_h3 ≡ false)
  main-no_plane n w =
      left_alone (main h l s quic starts clock available bind spawn false (ok cfg)) (main-Entry n w)
