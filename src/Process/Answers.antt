-- ===== src/Process/Answers.antt =====
-- The process survives every SIGHUP and answers every request, by the routes in force.
use ferroxy.Prelude.{
  ℕ, zero, suc, ◌≡◌, refl, ◌∙◌, sym, ap, ◌⊎◌, inl, inr, List, ◌∷◌, Option, none, some, length,
  get_elem?, All-get_elem?, ◌+◌,
}
use ferroxy.Prelude.Text.{Text}
use ferroxy.Prelude.Checked.{done}
use ferroxy.Prelude.Result.{Result, ok, err}
use ferroxy.Http.{Http}
use ferroxy.Config.Schema.{Config, TlsConfig}
use ferroxy.Config.Error.{ConfigError}
use ferroxy.Control.Metrics.{Add}
use ferroxy.Lifecycle.Dispatch.{Dispatch, from_config, host_of, route_of, handle, Handled, no_route}
use ferroxy.Lifecycle.Table
use ferroxy.Proxy.{ProxyBody, proxy_one, status_for_metrics}
use ferroxy.Proxy.Answered.{proxy_one_total}
use ferroxy.Transport.Resolver.{ServerTls, CertTable, build_table}
use ferroxy.Transport.Resolver.Build.{reload_lem}
use ferroxy.Upstream.Forward.{Request, Response, Reply, Outgoing}
use ferroxy.Upstream.Tls.{TlsLibrary}
use ferroxy.Process.{Running, build_swaps, on_sighup, reload_certs}
use ferroxy.Process.Reached.{Reached, Serves, Reached-AllServe, latest}

pub length-build_swaps :
    (h : Http) (l : TlsLibrary) {T : Type 0} (clock : ℕ → Text → ℕ → ℕ) (cfg : Config T) (n k : ℕ)
    → length (build_swaps h l clock cfg n k) ≡ n
unfolding build_swaps
length-build_swaps h l clock cfg zero k = refl
length-build_swaps h l clock cfg (suc n) k = ap suc (length-build_swaps h l clock cfg n (k + 1))

-- The resolver after a reload: the one before, or one with the table of the new certificates.
abbrev pub Refreshed :
    {s : ServerTls} → Option TlsConfig → Option (CertTable s) → Option (CertTable s) → Type 0
Refreshed {s} tls before after =
    (after ≡ before)
    ⊎ ((t : TlsConfig) × (fresh : CertTable s) × (tls ≡ some t)
        × (build_table s t.certs ≡ done (ok fresh))
        × (after ≡ some fresh))

reload_certs-Refreshed :
    {s : ServerTls} (before : Option (CertTable s)) (tls : Option TlsConfig)
    → (after : Option (CertTable s)) × (reload_certs before tls ≡ done after)
      × Refreshed tls before after
reload_certs-Refreshed none none = (none, refl, inl refl)
reload_certs-Refreshed none (some t) = (none, refl, inl refl)
reload_certs-Refreshed (some table) none = (some table, refl, inl refl)
reload_certs-Refreshed {s} (some table) (some t) = elim (reload_lem s t.certs table) [
  | inl (e, b, r) ↦ (some table, rw r refl, inl refl)
  | inr (fresh, b, r) ↦ (some fresh, rw r refl, inr (t, fresh, refl, b, refl))
]

done-eq : {A : Type 0} {a b : A} → done a ≡ done b → a ≡ b
done-eq e = cc

handle-no_route :
    (h : Http) (client : ℕ → Outgoing h → Reply h) (clock : ℕ → ℕ) (cut : ℕ → Option ℕ)
    (d : Dispatch h) (req : Request h)
    → route_of h d req ≡ none
    → handle h client clock cut d req ≡ done (err no_route, d)
unfolding handle
handle-no_route h client clock cut d req n = rw n refl

module _ (h : Http) (l : TlsLibrary) (s : ServerTls) {T : Type 0} where
  -- No SIGHUP makes the process panic or changes the number of its workers, and it changes the
  -- certificates only to the table of the new configuration, if that loads.
  pub on_sighup_total :
      (clock : ℕ → Text → ℕ → ℕ) (cfg : Config T) (r : Running h s)
      (result : Result ConfigError (Config T))
      → (r' : Running h s) × (on_sighup h l clock result r ≡ done r')
        × (length r'.http_workers ≡ length r.http_workers)
        × Refreshed (latest result cfg).tls r.resolver r'.resolver
  unfolding on_sighup
  on_sighup_total clock cfg r (err e) = (r, refl, refl, inl refl)
  on_sighup_total clock cfg r (ok fresh) =
      let (after, e, how) = reload_certs-Refreshed r.resolver fresh.tls in
      (
        record {
          primary = from_config h l (clock 0) fresh;
          http_workers = build_swaps h l clock fresh (length r.http_workers) 1;
          resolver = after;
        },
        rw e refl,
        length-build_swaps h l clock fresh (length r.http_workers) 1,
        how,
      )

  -- In every state that the process reaches, every plane and every worker answers every request
  -- without a panic, and picks its route from the table of the last configuration that loaded; where
  -- that has none, the status is 404.
  pub Reached-answers :
      (headers : h.HeaderMap) (cfg : Config T) (r : Running h s) (i : ℕ) (d : Dispatch h)
      (client : ℕ → Outgoing h → Reply h) (clock : ℕ → ℕ) (cut : ℕ → Option ℕ) (elapsed : ℕ)
      (req : Request h)
      → Reached h headers l s cfg r
      → get_elem? (r.primary ∷ r.http_workers) i ≡ some d
      → (out : Response h (ProxyBody h) × List Add × Dispatch h) × (proxy_one h
            (some headers)
            client
            clock
            cut
            elapsed
            d
            req
          ≡ done out)
        × (route_of h d req
            ≡ Table.find h
                (h.uri_path req.parts.uri)
                req.parts.headers
                (Table.from_config h cfg)
                (host_of h req))
        × (route_of h d req ≡ none → out.0.status ≡ 404)
  unfolding status_for_metrics
  Reached-answers headers cfg r i d client clock cut elapsed req p g =
      let a = Reached-AllServe h headers l s cfg r p in
      let v =
        All-get_elem? (Serves h headers l s cfg) (r.primary ∷ r.http_workers) i d
          (a.primary_serves, a.workers_serve) g in
      let (handled, out, e, f, b, valid, routes) =
        proxy_one_total h headers client clock cut elapsed d req v.upstreams_valid in
      (
        out,
        f,
        ap (λ t. Table.find h (h.uri_path req.parts.uri) req.parts.headers t (host_of h req))
            v.routes_eq,
        λ n.
            let q : handled ≡ (err no_route, d) =
              done-eq (sym e ∙ handle-no_route h client clock cut d req n) in
            b.0 ∙ ap (λ (t : Handled h). status_for_metrics h t.0) q,
      )
