-- ===== src/Process/Planes.antt =====
-- The planes beside plain HTTP, crates/conduit/src/main.rs: `spawn_h3_thread`, `run_https` and `run_h3`, and the loop of
-- `serve_admin` in crates/conduit-control/src/admin.rs. Sockets, handshakes and QUIC are parameters: what a wait
-- for a connection gives is listed with what the flag was before it.
pub mod Laws
mod Tests
use ferroxy.Prelude.{
  Bool, true, false, List, [], ◌∷◌, ◌++◌, Option, none, some, is_empty, if◌then◌else◌,
}
use mathlib.Core.Option
use ferroxy.Prelude.Text.{Text, codes, text_eq}
use ferroxy.Prelude.Checked.{Checked, panic, done}
use ferroxy.Prelude.Result.{Result, ok, err}
use ferroxy.Config.Schema.{Config, TlsConfig}
use ferroxy.Transport.Resolver.{
  ServerTls, CertTable, TlsError, ServerSettings, load_server_config_with_resolver,
}

-- What the thread of a plane is started with.
pub record Plane (Q : Type 0) : Type 0 where
  pub addrs : List Text
  pub settings : Q

module _ (s : ServerTls) where
  abbrev settings_of :
      Checked (Result TlsError (ServerSettings s × CertTable s))
      → Checked (Result TlsError (ServerSettings s))
  settings_of panic = panic
  settings_of (done (err e)) = done (err e)
  settings_of (done (ok (settings, table))) = done (ok settings)

  unfoldable pub load_server_config : TlsConfig → Checked (Result TlsError (ServerSettings s))
  load_server_config tls = settings_of (load_server_config_with_resolver s tls)

  abbrev pub h3_settings : ServerSettings s → ServerSettings s
  h3_settings settings = record settings { alpn_protocols = codes "h3" ∷ [] }

  -- `quic` is `conduit_h3::quic_server_config`, which only calls quinn.
  module _ {Q : Type 0} (quic : ServerSettings s → Option Q) {T : Type 0} where
    abbrev h3_plane :
        Config T → Checked (Result TlsError (ServerSettings s)) → Checked (Option (Plane Q))
    h3_plane cfg panic = panic
    h3_plane cfg (done (err e)) = done none
    h3_plane cfg (done (ok settings)) = done (
        Option.map (λ q. record { addrs = cfg.server.listen_h3; settings = q })
          (quic (h3_settings settings)))

    unfoldable pub spawn_h3_thread : Config T → Checked (Option (Plane Q))
    unfolding load_server_config
    spawn_h3_thread cfg =
        if is_empty cfg.server.listen_h3
        then done none
        else elim cfg.tls [ none ↦ done none | some tls ↦ h3_plane cfg (load_server_config tls) ]

-- A wait for a connection, of at most 250 ms, or 100 ms in the admin server. An endpoint of QUIC may be
-- closed.
pub data Poll (C : Type 0) : Type 0 where
  accepted : C → Poll C
  failed timed_out closed : Poll C

-- The loop of one listener: in each round the flag is read and then a connection awaited. `none` is a loop
-- that is still running at the end of the list; else the connections that it has handed on.
module _ {C : Type 0} where
  abbrev after_poll : Poll C → Option (List C) → Option (List C)
  after_poll (accepted c) rest = Option.map (λ cs. c ∷ cs) rest
  after_poll failed rest = rest
  after_poll timed_out rest = rest
  after_poll closed rest = some []

  unfoldable pub accept_loop : List (Bool × Poll C) → Option (List C)
  accept_loop [] = none
  accept_loop ((flag, poll) ∷ rounds) =
      let rest = after_poll poll (accept_loop rounds) in if flag then some [] else rest

-- The listeners of a plane, or the first address that could not be bound.
unfoldable pub bind_listeners : {L : Type 0} → (Text → Option L) → List Text → Result Text (List L)
bind_listeners bind [] = ok []
bind_listeners bind (addr ∷ addrs) = elim (bind addr) [
  | none ↦ err addr
  | some l ↦ elim (bind_listeners bind addrs) [ err e ↦ err e | ok ls ↦ ok (l ∷ ls) ]
]

-- What becomes of a plane: it gives up at an address, some loop runs still, or all have ended, each with
-- its connections.
pub data Outcome (C : Type 0) : Type 0 where
  gave_up : Text → Outcome C
  running : Outcome C
  ended : List (List C) → Outcome C

module _ {L C : Type 0} (rounds : L → List (Bool × Poll C)) where
  abbrev also : Option (List C) → Outcome C → Outcome C
  also none rest = running
  also (some cs) (gave_up addr) = gave_up addr
  also (some cs) running = running
  also (some cs) (ended css) = ended (cs ∷ css)

  -- The tasks of the listeners, joined one after the other.
  unfoldable pub run_loops : List L → Outcome C
  unfolding accept_loop
  run_loops [] = ended []
  run_loops (l ∷ ls) = also (accept_loop (rounds l)) (run_loops ls)

  unfoldable pub run_plane : (Text → Option L) → List Text → Outcome C
  unfolding bind_listeners run_loops
  run_plane bind addrs = elim (bind_listeners bind addrs) [
    | err addr ↦ gave_up addr
    | ok ls ↦ run_loops ls
  ]

-- The server that gets a connection of the HTTPS plane, by the protocol that its handshake agreed on; a
-- connection whose handshake fails gets none.
pub data Server : Type 0 where
  http1 http2 : Server

abbrev by_alpn : Option Text → Server
by_alpn none = http1
by_alpn (some protocol) = if text_eq protocol (codes "h2") then http2 else http1

unfoldable pub server_for : Option (Option Text) → Option Server
server_for none = none
server_for (some alpn) = some (by_alpn alpn)

module _ {L C : Type 0} (rounds : L → List (Bool × Poll C)) (bind : Text → Option L) where
  abbrev pub run_https : List Text → Outcome C
  run_https addrs = run_plane rounds bind addrs

  abbrev pub run_h3 : List Text → Outcome C
  run_h3 addrs = run_plane rounds bind addrs

  -- The admin server has one listener.
  abbrev pub serve_admin : Text → Outcome C
  serve_admin addr = run_plane rounds bind (addr ∷ [])
