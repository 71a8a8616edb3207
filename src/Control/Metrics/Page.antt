-- ===== src/Control/Metrics/Page.antt =====
-- The page of `/metrics`: `render` of crates/conduit-control/src/metrics.rs and the gauges that `metrics_response`
-- of admin.rs puts before it, line by line. The texts of `f64` values are parameters: `seconds us` is
-- that of `us as f64 / 1_000_000.0`.
pub mod Scrape
pub mod Numbers
mod Tests
use ferroxy.Prelude.{ℕ, ◌+◌, List, [], ◌∷◌, ◌++◌, map, Option, none, some}
use ferroxy.Prelude.Text.{Text, codes}
use ferroxy.Prelude.Decimal.{show}
use ferroxy.Control.Metrics.{
  MetricsHandle, Counter, requests_total, requests_no_route, requests_upstream_unknown,
  requests_upstream_failed, responses, duration_us_sum, Printed, render_global, render_class,
}

pub data Line : Type 0 where
  comment : Text → Line
  sample : Text → Text → Line

abbrev pub print_line : Line → Text
print_line (comment t) = codes "# " ++ (t ++ codes "\n")
print_line (sample name value) = name ++ (codes " " ++ (value ++ codes "\n"))

unfoldable pub print : List Line → Text
print [] = []
print (l ∷ ls) = print_line l ++ print ls

-- Samples of whole numbers.
unfoldable pub counts : List Text → List ℕ → List Line
counts [] ns = []
counts (name ∷ names) [] = []
counts (name ∷ names) (n ∷ ns) = sample name (show n) ∷ counts names ns

-- A family of samples, with what the comments before it say.
pub record Family : Type 0 where
  pub name : Text
  pub kind : Text
  pub help : Text

abbrev pub header : Family → List Line
header f =
    comment (codes "HELP " ++ (f.name ++ (codes " " ++ f.help)))
    ∷ comment (codes "TYPE " ++ (f.name ++ (codes " " ++ f.kind)))
    ∷ []

abbrev counter : Text → Text → Family
counter name help = record { name = name; kind = codes "counter"; help = help }

abbrev histogram : Text → Text → Family
histogram name help = record { name = name; kind = codes "histogram"; help = help }

abbrev gauge : Text → Text → Family
gauge name help = record { name = name; kind = codes "gauge"; help = help }

abbrev pub total : Family
total =
    counter (codes "conduit_requests_total") (codes "Total requests observed by the data plane.")

abbrev pub no_route : Family
no_route =
    counter (codes "conduit_requests_no_route_total")
      (codes "Requests that did not match any route.")

abbrev pub upstream_unknown : Family
upstream_unknown =
    counter (codes "conduit_requests_upstream_unknown_total")
      (codes "Routes referencing an unregistered upstream.")

abbrev pub upstream_failed : Family
upstream_failed =
    counter (codes "conduit_requests_upstream_failed_total") (codes "Upstream forward failures.")

abbrev pub by_status : Family
by_status = counter (codes "conduit_responses_total") (codes "Responses by status class.")

abbrev pub latency : Family
latency =
    histogram (codes "conduit_request_duration_seconds")
      (codes "Wall-clock latency of proxied requests.")

abbrev pub latency_by_class : Family
latency_by_class =
    histogram (codes "conduit_request_duration_seconds_by_class")
      (codes "Latency split by status class.")

abbrev pub uptime_gauge : Family
uptime_gauge =
    gauge (codes "conduit_uptime_seconds") (codes "Time since the admin server bound, in seconds.")

abbrev pub build_gauge : Family
build_gauge = gauge (codes "conduit_build_info") (codes "Build information; value is always 1.")

-- `LATENCY_BUCKETS_S` as `{le}` prints them.
abbrev pub bucket_labels : List Text
bucket_labels =
    codes "0.001"
    ∷ codes "0.005"
    ∷ codes "0.01"
    ∷ codes "0.025"
    ∷ codes "0.05"
    ∷ codes "0.1"
    ∷ codes "0.25"
    ∷ codes "0.5"
    ∷ codes "1"
    ∷ codes "2.5"
    ∷ codes "5"
    ∷ codes "10"
    ∷ []

-- `CLASS_LABELS`
abbrev pub class_labels : List Text
class_labels = codes "2xx" ∷ codes "3xx" ∷ codes "4xx" ∷ codes "5xx" ∷ []

abbrev pub quoted : Text → Text
quoted t = codes "\"" ++ (t ++ codes "\"")

abbrev pub bucket_name : Text → Text
bucket_name le = codes "conduit_request_duration_seconds_bucket{le=" ++ (quoted le ++ codes "}")

abbrev pub class_bucket_name : Text → Text → Text
class_bucket_name class le =
    codes "conduit_request_duration_seconds_by_class_bucket{class="
    ++ (quoted class ++ (codes ",le=" ++ (quoted le ++ codes "}")))

abbrev pub responses_name : Text → Text
responses_name class = codes "conduit_responses_total{class=" ++ (quoted class ++ codes "}")

abbrev pub class_count_name : Text → Text
class_count_name class =
    codes "conduit_request_duration_seconds_by_class_count{class=" ++ (quoted class ++ codes "}")

abbrev pub class_sum_name : Text → Text
class_sum_name class =
    codes "conduit_request_duration_seconds_by_class_sum{class=" ++ (quoted class ++ codes "}")

abbrev pub inf : Text
inf = codes "+Inf"

abbrev pub global_names : List Text
global_names =
    map bucket_name bucket_labels
    ++ (bucket_name inf ∷ codes "conduit_request_duration_seconds_count" ∷ [])

abbrev pub class_names : Text → List Text
class_names class =
    map (class_bucket_name class) bucket_labels
    ++ (class_bucket_name class inf ∷ class_count_name class ∷ [])

-- The whole numbers of a histogram: its buckets, and the count of all observations twice.
abbrev pub whole : Printed → List ℕ
whole p = p.buckets ++ (p.count ∷ p.count ∷ [])

module _ (seconds : ℕ → Text) (m : MetricsHandle) where
  abbrev pub one_counter : Family → Counter → List Line
  one_counter f c = header f ++ counts (f.name ∷ []) (m c ∷ [])

  unfoldable pub counter_lines : List Line
  counter_lines =
      one_counter total requests_total
      ++ (one_counter no_route requests_no_route
          ++ (one_counter upstream_unknown requests_upstream_unknown
              ++ (one_counter upstream_failed requests_upstream_failed
                  ++ (header by_status
                      ++ counts (map responses_name class_labels) (
                          m (responses 0)
                          ∷ m (responses 1)
                          ∷ m (responses 2)
                          ∷ m (responses 3)
                          ∷ [])))))

  unfoldable pub global_lines : List Line
  global_lines =
      header latency
      ++ (counts global_names (whole (render_global m))
          ++ (sample (codes "conduit_request_duration_seconds_sum")
                (seconds (render_global m).sum_us)
              ∷ []))

  -- The loop over `CLASS_LABELS`, from the index `idx` on.
  unfoldable pub class_lines : ℕ → List Text → List Line
  class_lines idx [] = []
  class_lines idx (class ∷ classes) =
      counts (class_names class) (whole (render_class m idx))
      ++ (sample (class_sum_name class) (seconds (render_class m idx).sum_us)
          ∷ class_lines (idx + 1) classes)

  unfoldable pub render_lines : List Line
  unfolding counter_lines global_lines class_lines
  render_lines =
      counter_lines ++ (global_lines ++ (header latency_by_class ++ class_lines 0 class_labels))

  unfoldable pub render : Text
  unfolding print render_lines
  render = print render_lines

abbrev pub version_name : Text → Text
version_name version = codes "conduit_build_info{version=" ++ (quoted version ++ codes "}")

unfoldable pub gauge_lines : Text → Text → List Line
gauge_lines uptime version =
    header uptime_gauge
    ++ (sample uptime_gauge.name uptime
        ∷ (header build_gauge ++ (sample (version_name version) (codes "1") ∷ [])))

-- The body of the answer: `uptime` and `version` are the texts of these values.
unfoldable pub metrics_page : Text → Text → (ℕ → Text) → MetricsHandle → Text
unfolding gauge_lines
metrics_page uptime version seconds m = print (gauge_lines uptime version) ++ render seconds m
