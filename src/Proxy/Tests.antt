-- ===== src/Proxy/Tests.antt =====
-- Requests through the proxy, and what a scrape prints after them.
use ferroxy.Prelude.{
  ℕ, ◌<◌, ◌≡◌, ◌≢◌, refl, List, [], ◌∷◌, none, some, length, get_elem?, arith, leb, u64_mod, ◌&&◌,
}
use ferroxy.Prelude.Text.{Text, codes}
use ferroxy.Prelude.Checked.{done}
use ferroxy.Prelude.Result.{err}
use ferroxy.Http.Sample.{sample_http}
use ferroxy.Control.Metrics.{
  Add, requests_total, duration_bucket, duration_us_sum, class_bucket, class_us_sum,
  requests_no_route, requests_upstream_failed, responses, new, perform, render_class,
  observe_request_duration, observe_status, class_index, bucket_index,
}
use ferroxy.Control.Metrics.Sums.{Interleaved, all_done, advance}
use ferroxy.Upstream.Forward.{Response, breaker_open}
use ferroxy.Proto.Body.{VecBody, from_bytes}
use ferroxy.Lifecycle.Dispatch.{Dispatch, Handled, no_route, upstream_error, handle, from_config}
use ferroxy.Lifecycle.Dispatch.Tests.{clock, unreachable, too_slow, get_index, dispatch, all_valid}
use ferroxy.Lifecycle.Dispatch.Tests.Loaded.{
  sample_tls, config, strict, built_at, accepted, loaded, few_addrs,
}
use ferroxy.Lifecycle.Upstreams.Valid.{IsValidMap}
use ferroxy.Proxy.{
  ProxyBody, synthetic, proxy_one, settle, answer, error_response, status_for_metrics,
}
use ferroxy.Proxy.Served.{Served, threads, has_class, count, render_class-Interleaved}
use ferroxy.Control.Metrics.Page.{bucket_name}
use ferroxy.Proxy.Scraped.{Has, scrape, scrape-Interleaved}
use ferroxy.Proxy.Answered.{AnsweredBy, proxy_one_total, proxy_one_of_checked}

abbrev plain : List (List ℕ × List ℕ)
plain = (codes "content-type", codes "text/plain") ∷ []

proxy_one_total_example :
    (handled : Handled sample_http) × (out : Response sample_http (ProxyBody sample_http)
      × List Add
      × Dispatch sample_http)
    × (handle sample_http unreachable clock too_slow dispatch get_index ≡ done handled)
    × (proxy_one sample_http (some plain) unreachable clock too_slow 7 dispatch get_index
        ≡ done out)
    × AnsweredBy sample_http plain unreachable clock too_slow 7 dispatch get_index handled out
    × IsValidMap out.2.upstreams
    × (out.2.routes ≡ dispatch.routes)
proxy_one_total_example =
    proxy_one_total sample_http plain unreachable clock too_slow 7 dispatch get_index all_valid

proxy_one_of_checked_example :
    (out : Response sample_http (ProxyBody sample_http) × List Add × Dispatch sample_http)
    × (proxy_one sample_http
          (some plain)
          unreachable
          clock
          too_slow
          7
          (from_config sample_http sample_tls built_at config)
          get_index
        ≡ done out)
    × ((b : VecBody sample_http.HeaderMap) → out.0.body ≡ synthetic b → out.0.status ≢ 500)
proxy_one_of_checked_example =
    proxy_one_of_checked sample_http plain unreachable clock too_slow 7 get_index config strict
      sample_tls built_at accepted loaded few_addrs

-- A request without a route after 2 ms, and one that finds all breakers open, which is answered only
-- after 30 s.
abbrev missed_adds : List Add
missed_adds =
    (requests_total, 1)
    ∷ (duration_bucket 1, 1)
    ∷ (duration_us_sum, 2_000)
    ∷ (class_bucket 2 1, 1)
    ∷ (class_us_sum 2, 2_000)
    ∷ (requests_no_route, 1)
    ∷ (responses 2, 1)
    ∷ []

abbrev late_adds : List Add
late_adds =
    (requests_total, 1)
    ∷ (duration_us_sum, 30_000_000)
    ∷ (class_us_sum 3, 30_000_000)
    ∷ (requests_upstream_failed, 1)
    ∷ (responses 3, 1)
    ∷ []

abbrev missed_resp : Response sample_http (ProxyBody sample_http)
missed_resp = record {
  status = 404;
  headers = plain;
  body = synthetic (record { chunks = codes "conduit: no route matched\n" ∷ []; trailers = none });
}

abbrev late_resp : Response sample_http (ProxyBody sample_http)
late_resp = record {
  status = 503;
  headers = plain;
  body =
      synthetic
        (record { chunks = codes "conduit: upstream breaker open\n" ∷ []; trailers = none });
}

missed_settled :
    settle sample_http (some plain) 2_000_000 (err no_route) ≡ done (missed_resp, missed_adds)
unfolding settle answer error_response status_for_metrics from_bytes observe_request_duration
    observe_status class_index bucket_index
missed_settled = refl

late_settled :
    settle sample_http (some plain) 30_000_000_000 (err (upstream_error breaker_open))
    ≡ done (late_resp, late_adds)
unfolding settle answer error_response status_for_metrics from_bytes observe_request_duration
    observe_status class_index bucket_index
late_settled = refl

abbrev two : List (Served sample_http plain)
two =
    record {
      elapsed = 2_000_000;
      result = err no_route;
      resp = missed_resp;
      ops = missed_adds;
      settled = missed_settled;
    }
    ∷ record {
      elapsed = 30_000_000_000;
      result = err (upstream_error breaker_open);
      resp = late_resp;
      ops = late_adds;
      settled = late_settled;
    }
    ∷ []

abbrev mixed : List Add
mixed =
    (requests_total, 1)
    ∷ (requests_total, 1)
    ∷ (duration_bucket 1, 1)
    ∷ (duration_us_sum, 2_000)
    ∷ (duration_us_sum, 30_000_000)
    ∷ (class_us_sum 3, 30_000_000)
    ∷ (class_bucket 2 1, 1)
    ∷ (class_us_sum 2, 2_000)
    ∷ (requests_upstream_failed, 1)
    ∷ (requests_no_route, 1)
    ∷ (responses 3, 1)
    ∷ (responses 2, 1)
    ∷ []

mixed-Interleaved : Interleaved (threads sample_http plain two) mixed
mixed-Interleaved = advance 0 _ _ refl (
    advance 1 _ _ refl (
      advance 0 _ _ refl (
        advance 0 _ _ refl (
          advance 1 _ _ refl (
            advance 1 _ _ refl (
              advance 0 _ _ refl (
                advance 0 _ _ refl (
                  advance 1 _ _ refl (
                    advance 0 _ _ refl (
                      advance 1 _ _ refl
                        (advance 0 _ _ refl (all_done (refl, (refl, tt))))))))))))))

few_requests : length two < u64_mod
few_requests = omega arith

render_class-Interleaved_example :
    (get_elem? (render_class (perform new mixed) 2).buckets 1
      ≡ some (
          count sample_http plain
            (λ r. has_class sample_http plain 2 r && leb r.elapsed 5_000_000)
            two))
    × ((render_class (perform new mixed) 2).count
        ≡ count sample_http plain (has_class sample_http plain 2) two)
render_class-Interleaved_example =
    render_class-Interleaved sample_http plain two mixed 2 1 5_000_000 mixed-Interleaved
      few_requests refl

abbrev half_second : ℕ → Text
half_second us = codes "0.5"

scrape-Interleaved_example :
    Has
      (scrape (codes "1.5") (codes "0.1.0") half_second (perform new mixed) none)
      (codes "conduit_requests_total", some (length two))
    × Has (scrape (codes "1.5") (codes "0.1.0") half_second (perform new mixed) none) (
      bucket_name (codes "0.005"),
      some (count sample_http plain (λ r. leb r.elapsed 5_000_000) two),
    )
scrape-Interleaved_example =
    scrape-Interleaved sample_http plain (codes "1.5") (codes "0.1.0") half_second none (λ us. refl)
      refl refl two mixed 1 5_000_000 (codes "0.005") mixed-Interleaved few_requests refl refl
