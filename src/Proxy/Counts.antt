-- ===== src/Proxy/Counts.antt =====
-- What one request adds to the counters, by the response that it gets.
use ferroxy.Prelude.{
  ℕ, ◌≡◌, refl, Bool, false, ◌&&◌, ltb, ◌==◌, if◌then◌else◌, List, [], ◌∷◌, ◌++◌, Option, none,
  some, length, arith, Bool-cases, Option-cases, inl, inr, clamp_u64, as_micros,
}
use ferroxy.Prelude.Checked.{done}
use ferroxy.Prelude.Result.{ok, err}
use ferroxy.Http.{Http}
use ferroxy.Control.Metrics.{
  Add, Counter, requests_total, requests_no_route, requests_upstream_unknown,
  requests_upstream_failed, responses, duration_us_sum, duration_bucket, class_us_sum, class_bucket,
  same, class_index, latency_buckets, bucket_index, observe_request_start, observe_request_duration,
  observe_status,
}
use ferroxy.Control.Metrics.Sums.{sum_for}
use ferroxy.Control.Metrics.Histogram.{indicator}
use ferroxy.Upstream.Forward.{Response}
use ferroxy.Lifecycle.Dispatch.{no_route, upstream_not_registered, upstream_error, timeout}
use ferroxy.Proxy.{ProxyBody, DispatchResult, status_for_metrics, error_response, answer, settle}

abbrev pub in_class : Option ℕ → ℕ → Bool
in_class none class = false
in_class (some i) class = i == class

abbrev pub bucket_of : ℕ → ℕ
bucket_of elapsed = bucket_index latency_buckets elapsed

-- Additions that count once in all, once in a class, if there is one, and once in the bucket `n`,
-- there and in its class, unless it lies beyond all bounds.
pub record Counted (class : Option ℕ) (n : ℕ) (bounded : Bool) (us : ℕ) (ops : List Add)
    : Type 0 where
  pub total_eq : sum_for requests_total ops ≡ 1
  pub class_eq : (c : ℕ) → sum_for (responses c) ops ≡ indicator (in_class class c)
  pub bucket_eq : (b : ℕ) → sum_for (duration_bucket b) ops ≡ indicator (bounded && n == b)
  pub class_bucket_eq :
      (c b : ℕ) → sum_for (class_bucket c b) ops ≡ indicator (in_class class c && bounded && n == b)
  pub sum_eq : sum_for duration_us_sum ops ≡ us

-- The additions of a request that took `elapsed` and was answered with `status`.
abbrev pub Counts : ℕ → ℕ → List Add → Type 0
Counts status elapsed ops =
    Counted (class_index status) (bucket_of elapsed)
      (ltb (bucket_of elapsed) (length latency_buckets)) (clamp_u64 (as_micros elapsed)) ops

-- The counter of an outcome that is no response of a backend.
data IsOutcome : Counter → Type 0 where
  was_no_route : IsOutcome requests_no_route
  was_unknown : IsOutcome requests_upstream_unknown
  was_failed : IsOutcome requests_upstream_failed

abbrev bucket_part : Bool → Counter → List Add
bucket_part b c = if b then (c, 1) ∷ [] else []

abbrev class_part : Bool → ℕ → ℕ → Option ℕ → List Add
class_part b n us none = []
class_part b n us (some i) = bucket_part b (class_bucket i n) ++ (class_us_sum i, us) ∷ []

abbrev responded : Option ℕ → List Add
responded none = []
responded (some i) = (responses i, 1) ∷ []

abbrev parts : Bool → Option ℕ → ℕ → ℕ → List Add → List Add
parts b o n us rest =
    (requests_total, 1) ∷ bucket_part b (duration_bucket n)
    ++ (duration_us_sum, us) ∷ class_part b n us o
    ++ rest

parts-Counted :
    (b : Bool) (o : Option ℕ) (n us : ℕ) → Counted o n b us (parts b o n us (responded o))
unfolding sum_for same
parts-Counted b o n us = record {
  total_eq = ground arith;
  class_eq = λ c. ground arith;
  bucket_eq = λ k. ground arith;
  class_bucket_eq = λ c k. ground arith;
  sum_eq = ground arith;
}

parts-Counted_outcome :
    (b : Bool) (o : Option ℕ) (n us : ℕ) (x : Counter)
    → IsOutcome x
    → Counted o n b us (parts b o n us ((x, 1) ∷ responded o))
unfolding sum_for same
parts-Counted_outcome b o n us x was_no_route = record {
  total_eq = ground arith;
  class_eq = λ c. ground arith;
  bucket_eq = λ k. ground arith;
  class_bucket_eq = λ c k. ground arith;
  sum_eq = ground arith;
}
parts-Counted_outcome b o n us x was_unknown = record {
  total_eq = ground arith;
  class_eq = λ c. ground arith;
  bucket_eq = λ k. ground arith;
  class_bucket_eq = λ c k. ground arith;
  sum_eq = ground arith;
}
parts-Counted_outcome b o n us x was_failed = record {
  total_eq = ground arith;
  class_eq = λ c. ground arith;
  bucket_eq = λ k. ground arith;
  class_bucket_eq = λ c k. ground arith;
  sum_eq = ground arith;
}

thread-parts :
    (status elapsed : ℕ) (rest : List Add)
    → observe_request_start ++ observe_request_duration elapsed status ++ rest
      ≡ parts
          (ltb (bucket_of elapsed) (length latency_buckets))
          (class_index status)
          (bucket_of elapsed)
          (clamp_u64 (as_micros elapsed))
          rest
unfolding observe_request_duration
thread-parts status elapsed rest = elim (Option-cases (class_index status)) [
  | inl e ↦ elim (Bool-cases (ltb (bucket_of elapsed) (length latency_buckets))) [
    | inl f ↦ rw (e, f) refl
    | inr f ↦ rw (e, f) refl
  ]
  | inr (i, e) ↦ elim (Bool-cases (ltb (bucket_of elapsed) (length latency_buckets))) [
    | inl f ↦ rw (e, f) refl
    | inr f ↦ rw (e, f) refl
  ]
]

-- What is counted after the duration: the class of the status, after at most one outcome.
data IsCount (status : ℕ) : List Add → Type 0 where
  status_only : IsCount status (observe_status status)
  with_outcome : (x : Counter) → IsOutcome x → IsCount status ((x, 1) ∷ observe_status status)

IsCount-Counts :
    (status elapsed : ℕ) (adds : List Add)
    → IsCount status adds
    → Counts status elapsed
        (observe_request_start ++ observe_request_duration elapsed status ++ adds)
unfolding observe_status
IsCount-Counts status elapsed adds status_only =
    rw (thread-parts status elapsed adds) (parts-Counted _ _ _ _)
IsCount-Counts status elapsed adds (with_outcome x o) =
    rw (thread-parts status elapsed adds) (parts-Counted_outcome _ _ _ _ x o)

module _ (h : Http) (headers : h.HeaderMap) where
  answer-IsCount :
      (result : DispatchResult h)
      → (resp : Response h (ProxyBody h)) × (adds : List Add) × (answer h (some headers) result
          ≡ done (resp, adds))
        × (resp.status ≡ status_for_metrics h result)
        × IsCount resp.status adds
  unfolding answer status_for_metrics error_response
  answer-IsCount (ok r) = (_, _, refl, refl, status_only)
  answer-IsCount (err no_route) = (_, _, refl, refl, with_outcome _ was_no_route)
  answer-IsCount (err (upstream_not_registered name)) =
      (_, _, refl, refl, with_outcome _ was_unknown)
  answer-IsCount (err (upstream_error e)) = (_, _, refl, refl, with_outcome _ was_failed)
  answer-IsCount (err (timeout total)) = (_, _, refl, refl, with_outcome _ was_failed)

  -- Every result is answered. The response has the status that the histograms are given, and its
  -- additions count it.
  pub settle_lem :
      (elapsed : ℕ) (result : DispatchResult h)
      → (resp : Response h (ProxyBody h)) × (ops : List Add) × (settle h
            (some headers)
            elapsed
            result
          ≡ done (resp, ops))
        × (resp.status ≡ status_for_metrics h result)
        × Counts resp.status elapsed ops
  unfolding settle
  settle_lem elapsed result =
      let (resp, adds, e, s, c) = answer-IsCount result in
      (
        resp,
        observe_request_start ++ observe_request_duration elapsed resp.status ++ adds,
        rw (e, s) refl,
        s,
        IsCount-Counts resp.status elapsed adds c,
      )
