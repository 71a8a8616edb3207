-- ===== src/Proxy/Answered.antt =====
-- `proxy_one` answers every request.
use ferroxy.Prelude.{
  Option, ℕ, ◌≡◌, ◌≢◌, refl, List, some, All, arith, ◌<◌, u64_mod, length, if◌then◌else◌,
}
use ferroxy.Prelude.Text.{Text}
use ferroxy.Prelude.Checked.{done}
use ferroxy.Prelude.Result.{ok, err}
use ferroxy.Http.{Http}
use ferroxy.Config.Schema.{Config}
use ferroxy.Config.Validate.{ValidationOptions, check_logic}
use ferroxy.Control.Metrics.{Add}
use ferroxy.Upstream.Tls.{TlsLibrary}
use ferroxy.Upstream.Forward.{Request, Response, Reply, Outgoing}
use ferroxy.Lifecycle.Upstreams.Build.{Loads}
use ferroxy.Lifecycle.Upstreams.Valid.{IsValidMap, from_config-IsValidMap}
use ferroxy.Lifecycle.Dispatch.{
  Dispatch, no_route, upstream_not_registered, upstream_error, timeout, handle, Handled,
  from_config,
}
use ferroxy.Lifecycle.Dispatch.Registered.{handle_of_checked}
use ferroxy.Proto.Body.{VecBody}
use ferroxy.Config.Schema
use ferroxy.Lifecycle.Dispatch.Total.{handle_total}
use ferroxy.Proxy.{
  ProxyBody, synthetic, DispatchResult, proxy_one, status_for_metrics, settle, answer,
  error_response, is_breaker_open,
}
use ferroxy.Proxy.Counts.{Counts, settle_lem}

module _ (h : Http) (headers : h.HeaderMap) (client : ℕ → Outgoing h → Reply h) (clock : ℕ → ℕ)
    (cut : ℕ → Option ℕ) (elapsed : ℕ) (d : Dispatch h) (req : Request h) where
  abbrev pub AnsweredBy : Handled h → Response h (ProxyBody h) × List Add × Dispatch h → Type 0
  AnsweredBy handled out =
      (out.0.status ≡ status_for_metrics h handled.0)
      × Counts out.0.status elapsed out.1
      × (out.2 ≡ handled.1)

  -- If every upstream of the dispatcher is valid, `proxy_one` answers without a panic, with the
  -- status that belongs to the result of `handle`, counts that response once, and leaves every
  -- upstream valid and the routes as they are.
  pub proxy_one_total :
      IsValidMap d.upstreams
      → (handled : Handled h) × (out : Response h (ProxyBody h) × List Add × Dispatch h) × (handle h
            client clock cut d req
          ≡ done handled)
        × (proxy_one h (some headers) client clock cut elapsed d req ≡ done out)
        × AnsweredBy handled out
        × IsValidMap out.2.upstreams
        × (out.2.routes ≡ d.routes)
  unfolding proxy_one
  proxy_one_total valid =
      let (handled, e, v, r) = handle_total h client clock cut d req valid in
      let (resp, ops, f, s, c) = settle_lem h headers elapsed handled.0 in
      (handled, (resp, ops, handled.1), e, rw (e, f) refl, (s, c, refl), v, r)

module _ (h : Http) (headers : h.HeaderMap) where
  -- A response that the proxy makes up itself has status 500 only for an upstream without an entry.
  settle-ne_500 :
      (elapsed : ℕ) (result : DispatchResult h) (resp : Response h (ProxyBody h)) (ops : List Add)
      (b : VecBody h.HeaderMap)
      → ((name : Text) → result ≢ err (upstream_not_registered name))
      → settle h (some headers) elapsed result ≡ done (resp, ops)
      → resp.body ≡ synthetic b
      → resp.status ≢ 500
  unfolding settle answer error_response
  settle-ne_500 elapsed (ok r) resp ops b n e q = cc
  settle-ne_500 elapsed (err no_route) resp ops b n e q =
      let s : resp.status ≡ 404 = cc in λ f. omega (arith, s, f)
  settle-ne_500 elapsed (err (upstream_not_registered name)) resp ops b n e q = absurd (n name refl)
  settle-ne_500 elapsed (err (upstream_error x)) resp ops b n e q =
      let s : resp.status ≡ (if is_breaker_open x then 503 else 502) = cc in
      λ f. ground (arith, s, f)
  settle-ne_500 elapsed (err (timeout total)) resp ops b n e q =
      let s : resp.status ≡ 504 = cc in λ f. omega (arith, s, f)

  -- Built from an accepted configuration whose TLS files load and with fewer than 2^64 addresses for
  -- each upstream, the proxy answers every request, and no response that it makes up has status 500.
  pub proxy_one_of_checked :
      (client : ℕ → Outgoing h → Reply h) (clock : ℕ → ℕ) (cut : ℕ → Option ℕ) (elapsed : ℕ)
      (req : Request h) {T : Type 0} (cfg : Config T) (opts : ValidationOptions) (l : TlsLibrary)
      (built_at : Text → ℕ → ℕ)
      → check_logic cfg opts ≡ ok tt
      → All (Loads l built_at) cfg.upstreams
      → All (λ (u : Schema.Upstream). length u.addrs < u64_mod) cfg.upstreams
      → (out : Response h (ProxyBody h) × List Add × Dispatch h) × (proxy_one h
            (some headers)
            client
            clock
            cut
            elapsed
            (from_config h l built_at cfg)
            req
          ≡ done out)
        × ((b : VecBody h.HeaderMap) → out.0.body ≡ synthetic b → out.0.status ≢ 500)
  unfolding proxy_one from_config
  proxy_one_of_checked client clock cut elapsed req cfg opts l built_at valid loads few =
      let d = from_config h l built_at cfg in
      let (handled, e, v, r) =
        handle_total h client clock cut d req (from_config-IsValidMap l built_at cfg few) in
      let (resp, ops, f, s, c) = settle_lem h headers elapsed handled.0 in
      (
        (resp, ops, handled.1),
        rw (e, f) refl,
        λ b.
            settle-ne_500 elapsed handled.0 resp ops b
              (λ name.
                handle_of_checked h client clock cut req cfg opts l built_at handled name valid
                  loads e)
              f,
      )
