-- ===== src/Process/Planes/Laws.antt =====
-- The planes of crates/conduit/src/main.rs for an accepted configuration, and the end of their loops.
use ferroxy.Prelude.{
  ◌*◌, ◌≡◌, ◌≢◌, refl, ◌⊎◌, inl, inr, Bool, true, false, List, [], ◌∷◌, ◌++◌, Option, none, some,
  is_empty, All, arith, if◌then◌else◌,
}
use mathlib.Core.Option
use ferroxy.Prelude.Text.{Text, codes}
use ferroxy.Prelude.Checked.{Checked, done}
use ferroxy.Prelude.Result.{Result, ok, err}
use ferroxy.Config.Schema.{Config, TlsConfig, CertSpec}
use ferroxy.Config.Validate.{ValidationOptions, check_logic, needs_tls}
use ferroxy.Config.Validate.Rules.{ListenerRules}
use ferroxy.Config.Validate.Sound.{check_logic_sound}
use ferroxy.Transport.Resolver.{
  ServerTls, CertTable, TlsError, no_certs, ServerSettings, build_table,
  load_server_config_with_resolver,
}
use ferroxy.Transport.Resolver.Build.{Loaded, no_entries, failed, loaded, build_table-Loaded}
use ferroxy.Process.Planes.{
  Poll, accepted, closed, spawn_h3_thread, load_server_config, accept_loop, bind_listeners,
  run_loops, run_plane, gave_up, ended,
}

-- Connections and the rounds that give no connection.
abbrev pub connections : {C : Type 0} → List (Bool × Poll C) → List C
connections [] = []
connections ((flag, accepted c) ∷ rounds) = c ∷ connections rounds
connections ((flag, poll) ∷ rounds) = connections rounds

-- A round before the flag goes up and before the endpoint is closed.
abbrev pub IsOpen : {C : Type 0} → Bool × Poll C → Type 0
IsOpen (flag, poll) = (flag ≡ false) × (poll ≢ closed)

-- A loop hands on the connections of the rounds before the one that finds the flag up, and then ends.
pub accept_loop-flag :
    {C : Type 0} (before after : List (Bool × Poll C)) (poll : Poll C)
    → All IsOpen before
    → accept_loop (before ++ ((true, poll) ∷ after)) ≡ some (connections before)
unfolding accept_loop
accept_loop-flag [] after poll a = refl
accept_loop-flag ((flag, accepted c) ∷ before) after poll ((f, p), a) =
    rw (f, accept_loop-flag before after poll a) refl
accept_loop-flag ((flag, closed) ∷ before) after poll ((f, p), a) = absurd (p refl)
accept_loop-flag ((flag, other) ∷ before) after poll ((f, p), a) =
    rw (f, accept_loop-flag before after poll a) refl

-- The flag goes up for a listener at some round.
abbrev pub Stops : {C : Type 0} → List (Bool × Poll C) → Type 0
Stops {C} rounds =
    (before : List (Bool × Poll C)) × (after : List (Bool × Poll C)) × (poll : Poll C) × (rounds
      ≡ before ++ ((true, poll) ∷ after))
    × All IsOpen before

module _ {L C : Type 0} (rounds : L → List (Bool × Poll C))
    (stops : (l : L) → Stops (rounds l)) where
  -- What each listener hands on.
  abbrev pub handed_on : List L → List (List C)
  handed_on [] = []
  handed_on (l ∷ ls) = connections (stops l).0 ∷ handed_on ls

  run_loops-flag : (ls : List L) → run_loops rounds ls ≡ ended (handed_on ls)
  unfolding run_loops
  run_loops-flag [] = refl
  run_loops-flag (l ∷ ls) =
      let (before, after, poll, e, open_) = stops l in
      rw (e, accept_loop-flag before after poll open_, run_loops-flag ls) refl

  -- Once the flag is up for each listener, a plane has come to its end: it gave up at an address that could
  -- not be bound, or it has handed on the connections of each listener from before that.
  pub run_plane-flag :
      (bind : Text → Option L) (addrs : List Text)
      → ((addr : Text) × (bind_listeners bind addrs ≡ err addr)
          × (run_plane rounds bind addrs ≡ gave_up addr))
        ⊎ ((ls : List L) × (bind_listeners bind addrs ≡ ok ls)
            × (run_plane rounds bind addrs ≡ ended (handed_on ls)))
  unfolding run_plane
  run_plane-flag bind addrs = go (bind_listeners bind addrs) refl
    where
      go :
          (r : Result Text (List L))
          → bind_listeners bind addrs ≡ r
          → ((addr : Text) × (bind_listeners bind addrs ≡ err addr)
              × (run_plane rounds bind addrs ≡ gave_up addr))
            ⊎ ((ls : List L) × (bind_listeners bind addrs ≡ ok ls)
                × (run_plane rounds bind addrs ≡ ended (handed_on ls)))
      go (err addr) e = inl (addr, e, rw (e, run_plane) refl)
      go (ok ls) e = inr (ls, e, rw (e, run_plane) (run_loops-flag ls))

module _ (s : ServerTls) where
  not_panicked :
      (specs : List CertSpec) (r : Checked (Result TlsError (CertTable s)))
      → Loaded s specs r
      → ((e : TlsError) × (r ≡ done (err e))) ⊎ ((table : CertTable s) × (r ≡ done (ok table)))
  not_panicked specs _ (no_entries x) = inl (no_certs, refl)
  not_panicked specs _ (failed e x) = inl (e, refl)
  not_panicked specs _ (loaded sni first ks table x f) = inr (table, refl)

  pub build_table_total :
      (specs : List CertSpec)
      → ((e : TlsError) × (build_table s specs ≡ done (err e)))
        ⊎ ((table : CertTable s) × (build_table s specs ≡ done (ok table)))
  build_table_total specs = not_panicked specs (build_table s specs) (build_table-Loaded s specs)

module _ (s : ServerTls) {T : Type 0} (cfg : Config T) (opts : ValidationOptions)
    (valid : check_logic cfg opts ≡ ok tt) where
  tls_given :
      (tls : Option TlsConfig)
      → ListenerRules true tls
      → (t : TlsConfig) × (tls ≡ some t) × (is_empty t.certs ≡ false)
  tls_given none h = cc
  tls_given (some t) h = (t, refl, h)

  -- An accepted configuration with addresses for HTTP/3 has certificates.
  h3_tls :
      is_empty cfg.server.listen_h3 ≡ false
      → (t : TlsConfig) × (cfg.tls ≡ some t) × (is_empty t.certs ≡ false)
  h3_tls h =
      let rules = (check_logic_sound cfg opts valid).listener_rules in
      let needed : needs_tls cfg.server ≡ true = ground arith in
      tls_given cfg.tls (rw needed at rules)

  -- With an accepted configuration that has addresses for HTTP/3, these are served exactly if the table
  -- of the certificates loads and QUIC accepts the settings, which offer HTTP/3 and nothing else; the
  -- start does not panic.
  pub spawn_h3_thread_of_checked :
      {Q : Type 0} (quic : ServerSettings s → Option Q)
      → is_empty cfg.server.listen_h3 ≡ false
      → (t : TlsConfig) × (cfg.tls ≡ some t)
        × (((e : TlsError) × (build_table s t.certs ≡ done (err e))
              × (spawn_h3_thread s quic cfg ≡ done none))
            ⊎ ((table : CertTable s) × (settings : ServerSettings s) × (build_table s t.certs
                  ≡ done (ok table))
                × (settings.alpn_protocols ≡ codes "h3" ∷ [])
                × (settings.max_early_data_size ≡ (if t.enable_0rtt then 16 * 1024 else 0))
                × (spawn_h3_thread s quic cfg
                    ≡ done (
                        Option.map
                          (λ q. record { addrs = cfg.server.listen_h3; settings = q })
                          (quic settings)))))
  unfolding spawn_h3_thread load_server_config load_server_config_with_resolver
  spawn_h3_thread_of_checked quic h =
      let (t, e, certs) = h3_tls h in
      (
        t,
        e,
        elim (build_table_total s t.certs) [
          | inl (x, q) ↦ inl (x, q, rw (h, e, certs, q) refl)
          | inr (table, q) ↦ inr (
            table,
            record {
              alpn_protocols = codes "h3" ∷ [];
              max_early_data_size = if t.enable_0rtt then 16 * 1024 else 0;
            },
            q,
            refl,
            refl,
            rw (h, e, certs, q) refl,
          )
        ],
      )
