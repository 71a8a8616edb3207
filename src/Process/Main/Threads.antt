-- ===== src/Process/Main/Threads.antt =====
-- The threads that `main` of crates/conduit/src/main.rs spawns beside those of plain HTTP.
use ferroxy.Prelude.{
  ◌*◌, ◌≡◌, refl, ◌⊎◌, inl, inr, Bool, Bool-cases, Option-cases, true, false, not, ◌&&◌, List, [],
  ◌∷◌, Option, none, some, is_empty, if◌then◌else◌,
}
use mathlib.Core.Option
use ferroxy.Prelude.Text.{codes}
use ferroxy.Prelude.Checked.{Checked, panic, done}
use ferroxy.Prelude.Result.{Result, ok, err}
use ferroxy.Http.{Http}
use ferroxy.Config.Schema.{Config, TlsConfig, CertSpec}
use ferroxy.Config.Validate.{is_some}
use ferroxy.Transport.Resolver.{
  ServerTls, ServerSettings, CertTable, TlsError, no_certs, build_table,
  load_server_config_with_resolver,
}
use ferroxy.Upstream.Tls.{TlsLibrary}
use ferroxy.Process.{Running, probes, spawn_https_thread}
use ferroxy.Process.Planes.{Plane, spawn_h3_thread, load_server_config}
use ferroxy.Process.Planes.Laws.{build_table_total}
use ferroxy.Process.Shutdown.{Thread, http, https, h3, admin, health, reload, Spawned}
use ferroxy.Process.Main.{spawn_expect, spawn_background}

is_some-map {ℓ κ} :
    {A : Type ℓ} {B : Type κ} (f : A → B) (o : Option A) → is_some (Option.map f o) ≡ is_some o
is_some-map f none = refl
is_some-map f (some a) = refl

-- The threads without which `main` does not go on.
abbrev pub is_expected : Thread → Bool
is_expected http = false
is_expected admin = false
is_expected t = true

module _ (s : ServerTls) where
  abbrev pub table_loads : Checked (Result TlsError (CertTable s)) → Bool
  table_loads (done (ok table)) = true
  table_loads r = false

  abbrev pub certs_load : Option TlsConfig → Bool
  certs_load none = false
  certs_load (some tls) = table_loads (build_table s tls.certs)

  -- QUIC accepts what is made of the settings.
  abbrev pub quic_accepts : {Q : Type 0} → (ServerSettings s → Option Q) → Option TlsConfig → Bool
  quic_accepts quic none = false
  quic_accepts quic (some tls) = is_some (
      quic (record {
        alpn_protocols = codes "h3" ∷ [];
        max_early_data_size = if tls.enable_0rtt then 16 * 1024 else 0;
      }))

  empty_certs :
      (certs : List CertSpec) → is_empty certs ≡ true → table_loads (build_table s certs) ≡ false
  unfolding build_table
  empty_certs [] x = refl
  empty_certs (c ∷ cs) x = cc

  -- Settings load exactly if the table of the certificates does.
  load_lem :
      (tls : TlsConfig)
      → ((e : TlsError) × (load_server_config_with_resolver s tls ≡ done (err e))
          × (table_loads (build_table s tls.certs) ≡ false))
        ⊎ ((table : CertTable s) × (load_server_config_with_resolver s tls
              ≡ done (
                  ok (
                    record {
                      alpn_protocols = codes "h2" ∷ codes "http/1.1" ∷ [];
                      max_early_data_size = if tls.enable_0rtt then 16 * 1024 else 0;
                    },
                    table,
                  )))
            × (table_loads (build_table s tls.certs) ≡ true))
  unfolding load_server_config_with_resolver
  load_lem tls = elim (Bool-cases (is_empty tls.certs)) [
    | inl x ↦ inl (no_certs, rw x refl, empty_certs tls.certs x)
    | inr x ↦ elim (build_table_total s tls.certs) [
      | inl (e, q) ↦ inl (e, rw (x, q) refl, rw q refl)
      | inr (table, q) ↦ inr (table, rw (x, q) refl, rw q refl)
    ]
  ]

  pub spawn_https_thread_lem :
      (h : Http) (l : TlsLibrary) {T : Type 0} (cfg : Config T)
      → (o : Option (CertTable s)) × (spawn_https_thread h l s cfg ≡ done o)
        × (is_some o ≡ not (is_empty cfg.server.listen_https) && certs_load cfg.tls)
  unfolding spawn_https_thread
  spawn_https_thread_lem h l cfg = elim (Bool-cases (is_empty cfg.server.listen_https)) [
    | inl x ↦ (none, rw x refl, rw x refl)
    | inr x ↦ elim (Option-cases cfg.tls) [
      | inl t ↦ (none, rw (x, t) refl, rw (x, t) refl)
      | inr (tls, t) ↦ elim (load_lem tls) [
        | inl (e, q, f) ↦ (none, rw (x, t, q) refl, rw (x, t, f) refl)
        | inr (table, q, f) ↦ (some table, rw (x, t, q) refl, rw (x, t, f) refl)
      ]
    ]
  ]

  spawn_h3_thread_lem :
      {Q : Type 0} (quic : ServerSettings s → Option Q) {T : Type 0} (cfg : Config T)
      → (p : Option (Plane Q)) × (spawn_h3_thread s quic cfg ≡ done p)
        × (is_some p
            ≡ not (is_empty cfg.server.listen_h3)
              && certs_load cfg.tls
              && quic_accepts quic cfg.tls)
  unfolding spawn_h3_thread load_server_config
  spawn_h3_thread_lem {Q = Q} quic cfg = elim (Bool-cases (is_empty cfg.server.listen_h3)) [
    | inl x ↦ (none, rw x refl, rw x refl)
    | inr x ↦ elim (Option-cases cfg.tls) [
      | inl t ↦ (none, rw (x, t) refl, rw (x, t) refl)
      | inr (tls, t) ↦ elim (load_lem tls) [
        | inl (e, q, f) ↦ (none, rw (x, t, q) refl, rw (x, t, f) refl)
        | inr (table, q, f) ↦
            let settings : ServerSettings s = record {
              alpn_protocols = codes "h3" ∷ [];
              max_early_data_size = if tls.enable_0rtt then 16 * 1024 else 0;
            } in
            let plane : Q → Plane Q = λ a. record { addrs = cfg.server.listen_h3; settings = a } in
            (
              Option.map plane (quic settings),
              rw (x, t, q) refl,
              rw (x, t, f) (is_some-map plane (quic settings)),
            )
      ]
    ]
  ]

pub spawn_expect_lem :
    (starts wanted : Bool)
    → ((starts ≡ false) × (spawn_expect starts wanted ≡ panic))
      ⊎ (spawn_expect starts wanted ≡ done wanted)
unfolding spawn_expect
spawn_expect_lem starts false = inr refl
spawn_expect_lem true true = inr refl
spawn_expect_lem false true = inl (refl, refl)

module _ (h : Http) (l : TlsLibrary) (s : ServerTls) {Q : Type 0}
    (quic : ServerSettings s → Option Q) (starts : Thread → Bool) {T : Type 0}
    (cfg : Config T) where
  -- The planes beside plain HTTP that an instance has.
  pub record Planes (r : Running h s) (sp : Spawned) : Type 0 where
    pub https_eq : sp.has_https ≡ not (is_empty cfg.server.listen_https) && certs_load s cfg.tls
    pub h3_eq :
        sp.has_h3
        ≡ not (is_empty cfg.server.listen_h3) && certs_load s cfg.tls && quic_accepts s quic cfg.tls
    pub admin_eq : sp.has_admin ≡ starts admin
    pub health_eq : sp.has_health ≡ not (is_empty (probes h l r.primary cfg.upstreams))

  pub data Backed (r : Running h s) : Checked Spawned → Type 0 where
    no_thread : (t : Thread) → is_expected t ≡ true → starts t ≡ false → Backed r panic
    backed : (sp : Spawned) → sp.has_http ≡ false → Planes r sp → Backed r (done sp)

  pub spawn_background_lem :
      (r : Running h s)
      → is_some r.resolver ≡ not (is_empty cfg.server.listen_https) && certs_load s cfg.tls
      → Backed r (spawn_background h l s quic starts cfg r)
  unfolding spawn_background
  spawn_background_lem r f = elim (spawn_expect_lem (starts https) (is_some r.resolver)) [
    | inl (d, e) ↦ rw e (no_thread https refl d)
    | inr e1 ↦ elim (spawn_expect_lem (starts reload) true) [
      | inl (d, e) ↦ rw (e1, e) (no_thread reload refl d)
      | inr e2 ↦
          let (plane, p, q) = spawn_h3_thread_lem s quic cfg in
          elim (spawn_expect_lem (starts h3) (is_some plane)) [
            | inl (d, e) ↦ rw (e1, e2, p, e) (no_thread h3 refl d)
            | inr e3 ↦
                elim (spawn_expect_lem (starts health)
                  (not (is_empty (probes h l r.primary cfg.upstreams)))) [
                    | inl (d, e) ↦ rw (e1, e2, p, e3, e) (no_thread health refl d)
                    | inr e4 ↦
                        rw (e1, e2, p, e3, e4)
                          (backed _ refl
                            (record { https_eq = f; h3_eq = q; admin_eq = refl; health_eq = refl }))
                  ]
          ]
    ]
  ]
