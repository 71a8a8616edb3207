-- ===== src/Lifecycle/Dispatch/Registered.antt =====
-- Dispatchers built from validated configurations.
use ferroxy.Prelude.{
  Option, ℕ, ◌≡◌, ◌≢◌, List, [], ◌∷◌, none, some, All, map, Option-cases, inl, inr,
}
use ferroxy.Prelude.Text.{Text}
use ferroxy.Prelude.Checked.{Checked, panic, done, ◌>>=◌}
use ferroxy.Prelude.Result.{ok, err}
use ferroxy.Http.{Http}
use ferroxy.Config.Schema.{Config}
use ferroxy.Config.Schema
use ferroxy.Config.Validate.{ValidationOptions, check_logic}
use ferroxy.Config.Validate.Rules.{Listed, RouteRules, names}
use ferroxy.Config.Validate.Sound.{check_logic_sound}
use ferroxy.Upstream.Pool.{Upstream}
use ferroxy.Upstream.Tls.{TlsLibrary}
use ferroxy.Upstream.Forward.{Request, Reply, Outgoing, Reported, forward}
use ferroxy.Lifecycle.Route.{Route}
use ferroxy.Lifecycle.Route
use ferroxy.Lifecycle.Table
use ferroxy.Lifecycle.Table.Members.{find-build-All}
use ferroxy.Lifecycle.Upstreams.{get}
use ferroxy.Lifecycle.Upstreams.Build.{Loads, from_config-Listed}
use ferroxy.Upstream.Forward.Until.{Progress, waiting, finished, forward_until}
use ferroxy.Lifecycle.Dispatch.{
  at_cut, Dispatch, timeout, upstream_not_registered, Handled, lift, updated, host_of, route_of,
  with_timeout, dispatch_to, handle, from_config,
}

module _ (h : Http) (client : ℕ → Outgoing h → Reply h) (clock : ℕ → ℕ) (cut : ℕ → Option ℕ)
    (req : Request h) where
  report-ne :
      (d : Dispatch h) (upstream name : Text) (out : Handled h) (r : Checked (Reported h))
      → (r >>= λ (t : Reported h).
          let o : Handled h = (lift h t.0, updated h d upstream t.1) in done o)
        ≡ done out
      → out.0 ≢ err (upstream_not_registered name)
  report-ne d upstream name out panic e = λ x. cc
  report-ne d upstream name out (done (ok resp, u, sent)) e = λ x. cc
  report-ne d upstream name out (done (err y, u, sent)) e = λ x. cc

  progress-ne :
      (d : Dispatch h) (route : Route h) (name : Text) (out : Handled h) (r : Checked (Progress h))
      → (r >>= λ (t : Progress h). done (at_cut h client clock cut d req route t)) ≡ done out
      → out.0 ≢ err (upstream_not_registered name)
  progress-ne d route name out panic e = λ x. cc
  progress-ne d route name out (done (waiting u)) e =
      let left : Handled h = (err (timeout route.total_timeout), updated h d route.upstream u) in
      let e' : done left ≡ done out = e in λ x. cc
  progress-ne d route name out (done (finished r)) e =
      report-ne d route.upstream name out (done r) e

  dispatch_to-ne :
      (d : Dispatch h) (route : Route h) (u : Upstream) (out : Handled h) (name : Text)
      → dispatch_to h client clock cut d req route (some u) ≡ done out
      → out.0 ≢ err (upstream_not_registered name)
  unfolding dispatch_to with_timeout
  dispatch_to-ne d route u out name e = elim (Option-cases (cut route.total_timeout)) [
    | inl t ↦
        report-ne d route.upstream name out (forward h client clock u req route.read_timeout)
          (rw (t, dispatch_to, with_timeout) at e)
    | inr (n, t) ↦
        progress-ne d route name out (forward_until h client clock n u req route.read_timeout)
          (rw (t, dispatch_to, with_timeout) at e)
  ]

  -- If the route of a request names an upstream that is there, the request does not fail for want of it.
  handle-ne :
      (d : Dispatch h) (out : Handled h) (name : Text)
      → ((r : Route h) → route_of h d req ≡ some r → get d.upstreams r.upstream ≢ none)
      → handle h client clock cut d req ≡ done out
      → out.0 ≢ err (upstream_not_registered name)
  unfolding handle
  handle-ne d out name known q = elim (Option-cases (route_of h d req)) [
    | inl e ↦ λ x. cc
    | inr (r, e) ↦ elim (Option-cases (get d.upstreams r.upstream)) [
      | inl g ↦ absurd (known r e g)
      | inr (u, g) ↦ dispatch_to-ne d r u out name (rw (e, g) at q)
    ]
  ]

  routes-Listed :
      {T : Type 0} (ns : List Text) (rs : List (Schema.Route T))
      → All (RouteRules ns) rs
      → All (λ (r : Route h). Listed r.upstream ns) (map (Route.from_config h) rs)
  unfolding Route.from_config
  routes-Listed ns [] a = tt
  routes-Listed ns (r ∷ rs) a = (a.0.upstream_declared, routes-Listed ns rs a.1)

  -- A dispatcher built from an accepted configuration whose TLS files all load never answers a request
  -- with `UpstreamNotRegistered`.
  pub handle_of_checked :
      {T : Type 0} (cfg : Config T) (opts : ValidationOptions) (l : TlsLibrary)
      (built_at : Text → ℕ → ℕ) (out : Handled h) (name : Text)
      → check_logic cfg opts ≡ ok tt
      → All (Loads l built_at) cfg.upstreams
      → handle h client clock cut (from_config h l built_at cfg) req ≡ done out
      → out.0 ≢ err (upstream_not_registered name)
  unfolding from_config Table.from_config
  handle_of_checked cfg opts l built_at out name valid loads =
      let v = check_logic_sound cfg opts valid in
      handle-ne (from_config h l built_at cfg) out name λ r e.
        from_config-Listed l built_at cfg r.upstream loads (
          find-build-All h (h.uri_path req.parts.uri) req.parts.headers
            (λ (t : Route h). Listed t.upstream (names cfg.upstreams))
            (map (Route.from_config h) cfg.routes) (host_of h req) r
            (routes-Listed (names cfg.upstreams) cfg.routes v.route_rules) e)
