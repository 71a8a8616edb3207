-- ===== src/Lifecycle/Dispatch.antt =====
-- `Dispatch` of crates/conduit-lifecycle/src/table.rs. `tokio::time::timeout` is a parameter: it polls `forward` before
-- it looks at the time, so it drops `forward` at one of its waits. `cut total` is the number of the waits
-- that are over when `total` has passed, or `none` if `forward` is over before that.
pub mod Handle
pub mod Registered
pub mod Total
pub mod Tests
use ferroxy.Prelude.{ℕ, List, [], ◌∷◌, Option, none, some}
use ferroxy.Prelude.Text.{Text}
use ferroxy.Prelude.Checked.{Checked, done, ◌>>=◌}
use ferroxy.Prelude.Result.{Result, ok, err}
use ferroxy.Http.{Http}
use ferroxy.Config.Schema.{Config}
use ferroxy.Upstream.Pool.{Upstream}
use ferroxy.Upstream.Tls.{TlsLibrary}
use ferroxy.Upstream.Timed.{TimedBody}
use ferroxy.Upstream.Forward.{Request, Response, Reply, Outgoing, ForwardError, Reported, forward}
use ferroxy.Upstream.Forward.Until.{Progress, waiting, finished, forward_until}
use ferroxy.Lifecycle.Route.{Route}
use ferroxy.Lifecycle.Table.{RouteTable}
use ferroxy.Lifecycle.Table
use ferroxy.Lifecycle.Upstreams.{UpstreamMap}
use ferroxy.Lifecycle.Upstreams

pub record Dispatch (h : Http) : Type 0 where
  pub routes : RouteTable h
  pub upstreams : UpstreamMap

pub data DispatchError : Type 0 where
  no_route : DispatchError
  upstream_not_registered : Text → DispatchError
  upstream_error : ForwardError → DispatchError
  timeout : ℕ → DispatchError

unfoldable pub from_config :
    (h : Http) (l : TlsLibrary) → (Text → ℕ → ℕ) → {T : Type 0} → Config T → Dispatch h
from_config h l clock cfg = record {
  routes = Table.from_config h cfg;
  upstreams = Upstreams.from_config l clock cfg;
}

module _ (h : Http) where
  abbrev pub Handled : Type 0
  Handled = Result DispatchError (Response h (TimedBody h.Incoming)) × Dispatch h

  -- The upstream is shared, so its new state is the one under its name.
  abbrev pub updated : Dispatch h → Text → Upstream → Dispatch h
  updated d name u = record d { upstreams = Upstreams.insert name u d.upstreams }

  abbrev pub lift :
      Result ForwardError (Response h (TimedBody h.Incoming))
      → Result DispatchError (Response h (TimedBody h.Incoming))
  lift (ok resp) = ok resp
  lift (err e) = err (upstream_error e)

  -- `req.headers().get(HOST).and_then(|v| v.to_str().ok())`
  abbrev host_text : Option h.HeaderValue → Option Text
  host_text none = none
  host_text (some v) = h.to_str v

  abbrev pub host_of : Request h → Option Text
  host_of req = host_text (h.get req.parts.headers h.host_name)

  abbrev pub route_of : Dispatch h → Request h → Option (Route h)
  route_of d req = Table.find h (h.uri_path req.parts.uri) req.parts.headers d.routes (host_of req)

  module _ (client : ℕ → Outgoing h → Reply h) (clock : ℕ → ℕ) (cut : ℕ → Option ℕ) (d : Dispatch h)
      (req : Request h) where
    abbrev with_result : Text → Reported h → Handled
    with_result name (result, u, sent) = (lift result, updated d name u)

    -- What is left of a run of `forward` that is dropped, if it still waits.
    abbrev pub at_cut : Route h → Progress h → Handled
    at_cut route (waiting u) = (err (timeout route.total_timeout), updated d route.upstream u)
    at_cut route (finished report) = with_result route.upstream report

    -- `tokio::time::timeout(total, upstream.forward(req, read))`
    unfoldable pub with_timeout : Route h → Upstream → Checked Handled
    with_timeout route u = elim (cut route.total_timeout) [
      | none ↦ forward h client clock u req route.read_timeout >>= λ report.
          done (with_result route.upstream report)
      | some n ↦ forward_until h client clock n u req route.read_timeout >>= λ progress.
          done (at_cut route progress)
    ]

    unfoldable pub dispatch_to : Route h → Option Upstream → Checked Handled
    unfolding with_timeout
    dispatch_to route none = done (err (upstream_not_registered route.upstream), d)
    dispatch_to route (some u) = with_timeout route u

    abbrev follow : Option (Route h) → Checked Handled
    follow none = done (err no_route, d)
    follow (some route) = dispatch_to route (Upstreams.get d.upstreams route.upstream)

    unfoldable pub handle : Checked Handled
    unfolding dispatch_to
    handle = follow (route_of d req)
