-- ===== src/Control/Metrics/Page/Tests.antt =====
-- A page of `/metrics`, crates/conduit-control/src/metrics.rs, with one answered request.
use ferroxy.Prelude.{ℕ, ◌≡◌, refl, List, ◌++◌, none}
use ferroxy.Prelude.Text.{Text, codes}
use ferroxy.Prelude.Decimal.{show, read}
use ferroxy.Control.Metrics.{
  Add, new, perform, fetch_add, same, observe_request_start, observe_status, class_index,
  requests_total,
}
use ferroxy.Control.Metrics.Page.{print, total, one_counter, counts, metrics_page}
use ferroxy.Control.Metrics.Page.Scrape.{read_page}
use ferroxy.Control.Metrics.Page.Numbers.{page_samples, read-metrics_page}

abbrev seconds : ℕ → Text
seconds us = codes "0.005"

abbrev one_request : List Add
one_request = observe_request_start ++ observe_status 200

digits : show 18446744073709551615 ≡ codes "18446744073709551615"
unfolding show
digits = refl

too_large : read (codes "18446744073709551616") ≡ none
unfolding read
too_large = refl

first_family :
    print (one_counter seconds (perform new one_request) total requests_total)
    ≡ codes
        "# HELP conduit_requests_total Total requests observed by the data plane.\n# TYPE conduit_requests_total counter\nconduit_requests_total 1\n"
unfolding print counts show perform fetch_add same new observe_status class_index
first_family = refl

read-metrics_page_example :
    read_page (metrics_page (codes "1.5") (codes "0.1.0") seconds (perform new one_request))
    ≡ page_samples seconds (perform new one_request) (codes "1.5") (codes "0.1.0")
read-metrics_page_example =
    read-metrics_page seconds one_request (codes "1.5") (codes "0.1.0") (λ us. refl) refl refl
