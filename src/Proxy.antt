-- ===== src/Proxy.antt =====
-- `proxy_one`, `error_response` and `ProxyBody` of crates/conduit/src/main.rs: the answer to one request and
-- what it counts. `elapsed` is the measured duration, and `plain` the header map that the response
-- builder makes for `content-type: text/plain`, if it accepts it. A request returns the additions that
-- it makes to the shared counters, in order.
pub mod Counts
pub mod Served
pub mod Scraped
pub mod Answered
mod Tests
use Prim.Native.String.{String}
use ferroxy.Prelude.{ℕ, Bool, true, false, if◌then◌else◌, List, [], ◌∷◌, ◌++◌, Option, none, some}
use ferroxy.Prelude.Text.{codes}
use ferroxy.Prelude.Checked.{Checked, done, expect, ◌>>=◌}
use ferroxy.Prelude.Result.{Result, ok, err}
use ferroxy.Http.{Http}
use ferroxy.Control.Metrics.{
  Add, observe_request_start, observe_request_duration, observe_no_route, observe_upstream_unknown,
  observe_upstream_failed, observe_status,
}
use ferroxy.Proto.Body.{Frame, VecBody, from_bytes}
use ferroxy.Proto.Body
use ferroxy.Upstream.Timed.{TimedBody, TimedError, Polled, pending, frame, failed, ended}
use ferroxy.Upstream.Timed
use ferroxy.Upstream.Forward.{Request, Response, Reply, Outgoing, ForwardError, breaker_open}
use ferroxy.Lifecycle.Dispatch.{
  Dispatch, DispatchError, no_route, upstream_not_registered, upstream_error, timeout, handle,
  Handled,
}

pub data ProxyBody (h : Http) : Type 0 where
  upstream : TimedBody h.Incoming → ProxyBody h
  synthetic : VecBody h.HeaderMap → ProxyBody h

abbrev pub is_breaker_open : ForwardError → Bool
is_breaker_open breaker_open = true
is_breaker_open e = false

module _ (h : Http) where
  abbrev pub DispatchResult : Type 0
  DispatchResult = Result DispatchError (Response h (TimedBody h.Incoming))

  unfoldable pub status_for_metrics : DispatchResult → ℕ
  status_for_metrics (ok resp) = resp.status
  status_for_metrics (err no_route) = 404
  status_for_metrics (err (upstream_error e)) = if is_breaker_open e then 503 else 502
  status_for_metrics (err (timeout total)) = 504
  status_for_metrics (err (upstream_not_registered name)) = 500

  module _ (plain : Option h.HeaderMap) where
    unfoldable pub error_response : ℕ → String → Checked (Response h (ProxyBody h))
    error_response status body = do
      headers ← expect plain
      done (record {
        status = status;
        headers = headers;
        body = synthetic (from_bytes (codes body));
      })

    -- The last `match` of `proxy_one`, with what it counts.
    unfoldable pub answer : DispatchResult → Checked (Response h (ProxyBody h) × List Add)
    answer (ok resp) = done (
      record { status = resp.status; headers = resp.headers; body = upstream resp.body },
      observe_status resp.status,
    )
    answer (err no_route) = do
      resp ← error_response 404 "conduit: no route matched\n"
      done (resp, observe_no_route ++ observe_status 404)
    answer (err (upstream_not_registered name)) = do
      resp ← error_response 500 "conduit: route references unknown upstream\n"
      done (resp, observe_upstream_unknown ++ observe_status 500)
    answer (err (upstream_error e)) =
        let status = if is_breaker_open e then 503 else 502 in
        let body =
          if is_breaker_open e
          then "conduit: upstream breaker open\n"
          else "conduit: upstream unavailable\n" in
        do
          resp ← error_response status body
          done (resp, observe_upstream_failed ++ observe_status status)
    answer (err (timeout total)) = do
      resp ← error_response 504 "conduit: upstream timed out\n"
      done (resp, observe_upstream_failed ++ observe_status 504)

    -- All that `proxy_one` counts for one result, from the start of the request on.
    unfoldable pub settle : ℕ → DispatchResult → Checked (Response h (ProxyBody h) × List Add)
    unfolding answer
    settle elapsed result = do
      answered ← answer result
      done (
        answered.0,
        observe_request_start
            ++ observe_request_duration elapsed (status_for_metrics result)
            ++ answered.1,
      )

    unfoldable pub proxy_one :
        (ℕ → Outgoing h → Reply h)
        → (ℕ → ℕ)
        → (ℕ → Option ℕ)
        → ℕ
        → Dispatch h
        → Request h
        → Checked (Response h (ProxyBody h) × List Add × Dispatch h)
    unfolding settle
    proxy_one client clock cut elapsed d req = do
      handled ← handle h client clock cut d req
      settled ← settle elapsed handled.0
      done (settled.0, settled.1, handled.1)

  abbrev from_vec :
      {E : Type 0}
      → Option (Frame h.HeaderMap) × VecBody h.HeaderMap
      → Polled (Frame h.HeaderMap) (TimedError E) × ProxyBody h
  from_vec (some f, b) = (frame f, synthetic b)
  from_vec (none, b) = (ended, synthetic b)

  -- `poll_frame` of a `ProxyBody`; `poll_inner` is that of `Incoming`.
  unfoldable pub poll_frame :
      {E : Type 0}
      → (h.Incoming → Polled (Frame h.HeaderMap) E × h.Incoming)
      → ProxyBody h
      → ℕ
      → Polled (Frame h.HeaderMap) (TimedError E) × ProxyBody h
  poll_frame poll_inner (upstream inner) now =
      let polled = Timed.poll_frame poll_inner inner now in (polled.0, upstream polled.1)
  poll_frame poll_inner (synthetic inner) now = from_vec (Body.poll_frame inner)
