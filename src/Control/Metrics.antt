-- ===== src/Control/Metrics.antt =====
-- crates/conduit-control/src/metrics.rs. A `MetricsHandle` is a store of 64-bit cells, one for each of its
-- `AtomicU64`; an array of them is one cell for each index. A method that counts is the list of
-- the `fetch_add` calls that it makes, in order, since requests on other threads may interleave
-- theirs. Durations count nanoseconds, and a bucket's bound in seconds, exact in nanoseconds, is
-- compared with them: below 2^53 ns the conversion to `f64` keeps the order.
pub mod Sums
pub mod Histogram
pub mod Page
use ferroxy.Prelude.{
  ℕ, zero, suc, ◌+◌, ◌/◌, ◌%◌, ◌&&◌, ltb, leb, ◌==◌, if◌then◌else◌, Bool, true, false, List, [],
  ◌∷◌, ◌++◌, Option, none, some, length, u64_mod, clamp_u64, as_micros, sat_add_u64,
}

-- The status classes 2xx, 3xx, 4xx, 5xx are 0, 1, 2, 3.
pub data Counter : Type 0 where
  requests_total requests_no_route requests_upstream_unknown requests_upstream_failed : Counter
  responses : ℕ → Counter
  duration_us_sum : Counter
  duration_bucket : ℕ → Counter
  class_us_sum : ℕ → Counter
  class_bucket : ℕ → ℕ → Counter

unfoldable pub same : Counter → Counter → Bool
same requests_total requests_total = true
same requests_no_route requests_no_route = true
same requests_upstream_unknown requests_upstream_unknown = true
same requests_upstream_failed requests_upstream_failed = true
same (responses i) (responses j) = i == j
same duration_us_sum duration_us_sum = true
same (duration_bucket i) (duration_bucket j) = i == j
same (class_us_sum i) (class_us_sum j) = i == j
same (class_bucket i b) (class_bucket j c) = i == j && b == c
same _ _ = false

abbrev pub MetricsHandle : Type 0
MetricsHandle = Counter → ℕ

unfoldable pub new : MetricsHandle
new c = 0

-- `counter.fetch_add(n)`, still to be made.
abbrev pub Add : Type 0
Add = Counter × ℕ

unfoldable pub fetch_add : MetricsHandle → Add → MetricsHandle
fetch_add m (c, n) d = if same c d then (m d + n) % u64_mod else m d

unfoldable pub perform : MetricsHandle → List Add → MetricsHandle
perform m [] = m
perform m (a ∷ ops) = perform (fetch_add m a) ops

unfoldable pub class_index : ℕ → Option ℕ
class_index status =
    let class : ℕ = status / 100 in
    if class == 2
    then some 0
    else if class == 3
    then some 1
    else if class == 4
    then some 2
    else if class == 5
    then some 3
    else none

-- `LATENCY_BUCKETS_S`, in nanoseconds.
abbrev pub latency_buckets : List ℕ
latency_buckets =
    1_000_000 ∷ 5_000_000 ∷ 10_000_000 ∷ 25_000_000 ∷ 50_000_000 ∷ 100_000_000 ∷ 250_000_000
    ∷ 500_000_000 ∷ 1_000_000_000 ∷ 2_500_000_000 ∷ 5_000_000_000 ∷ 10_000_000_000 ∷ []

-- The loop of `bucket_index` over the bounds that are left.
unfoldable pub bucket_index : List ℕ → ℕ → ℕ
bucket_index [] elapsed = 0
bucket_index (le ∷ les) elapsed =
    let rest = bucket_index les elapsed in if leb elapsed le then 0 else suc rest

abbrev pub observe_request_start : List Add
observe_request_start = (requests_total, 1) ∷ []

abbrev bucket_add : Counter → ℕ → List Add
bucket_add c bucket = if ltb bucket (length latency_buckets) then (c, 1) ∷ [] else []

abbrev class_adds : ℕ → ℕ → Option ℕ → List Add
class_adds bucket us none = []
class_adds bucket us (some idx) =
    bucket_add (class_bucket idx bucket) bucket ++ (class_us_sum idx, us) ∷ []

unfoldable pub observe_request_duration : ℕ → ℕ → List Add
observe_request_duration elapsed status =
    let us = clamp_u64 (as_micros elapsed) in
    let bucket = bucket_index latency_buckets elapsed in
    bucket_add (duration_bucket bucket) bucket
    ++ (duration_us_sum, us) ∷ class_adds bucket us (class_index status)

abbrev pub observe_no_route : List Add
observe_no_route = (requests_no_route, 1) ∷ []

abbrev pub observe_upstream_unknown : List Add
observe_upstream_unknown = (requests_upstream_unknown, 1) ∷ []

abbrev pub observe_upstream_failed : List Add
observe_upstream_failed = (requests_upstream_failed, 1) ∷ []

unfoldable pub observe_status : ℕ → List Add
observe_status status = elim (class_index status) [ none ↦ [] | some idx ↦ (responses idx, 1) ∷ [] ]

-- The running sum of `render` over the buckets from `i` on.
unfoldable pub cumulate : (ℕ → ℕ) → ℕ → ℕ → List ℕ → List ℕ
cumulate load i cumulative [] = []
cumulate load i cumulative (le ∷ les) =
    let next = sat_add_u64 cumulative (load i) in next ∷ cumulate load (i + 1) next les

-- The numbers that `render` prints for a histogram: a count for each bound, the count of all
-- observations, which it gives for `+Inf` too, and the sum in microseconds.
pub record Printed : Type 0 where
  pub buckets : List ℕ
  pub count : ℕ
  pub sum_us : ℕ

unfoldable pub render_global : MetricsHandle → Printed
render_global m = record {
  buckets = cumulate (λ i. m (duration_bucket i)) 0 0 latency_buckets;
  count = m requests_total;
  sum_us = m duration_us_sum;
}

unfoldable pub render_class : MetricsHandle → ℕ → Printed
render_class m class = record {
  buckets = cumulate (λ i. m (class_bucket class i)) 0 0 latency_buckets;
  count = m (responses class);
  sum_us = m (class_us_sum class);
}
