-- ===== src/Proxy/Served.antt =====
-- What a scrape prints after any number of requests, whose additions interleave in any order.
use ferroxy.Prelude.{
  ℕ, ◌+◌, ◌≤◌, ◌<◌, ◌≡◌, refl, ◌∙◌, ap, Bool, true, ◌&&◌, leb, if◌then◌else◌, List, [], ◌∷◌, map,
  some, length, get_elem?, arith, subst, u64_mod, lt-of_get_elem?,
}
use ferroxy.Prelude.Checked.{done}
use ferroxy.Http.{Http}
use ferroxy.Control.Metrics.{
  Add, requests_total, responses, duration_bucket, class_bucket, class_index, latency_buckets, new,
  perform, render_global, render_class, cumulate,
}
use ferroxy.Control.Metrics.Sums.{sum_threads, Interleaved, perform-Interleaved}
use ferroxy.Control.Metrics.Histogram.{
  hits-length, indicator, hits, at_most, at_most-length, sum_upto-hits, sum_upto-ext,
  get_elem?-cumulate, latency-leb,
}
use ferroxy.Upstream.Forward.{Response}
use ferroxy.Proxy.{ProxyBody, DispatchResult, settle}
use ferroxy.Proxy.Counts.{Counts, in_class, bucket_of, settle_lem}

module _ (h : Http) (headers : h.HeaderMap) where
  -- A request that was answered after `elapsed`.
  pub record Served : Type 0 where
    pub elapsed : ℕ
    pub result : DispatchResult h
    pub resp : Response h (ProxyBody h)
    pub ops : List Add
    pub settled : settle h (some headers) elapsed result ≡ done (resp, ops)

  abbrev pub threads : List Served → List (List Add)
  threads rs = map (λ r. r.ops) rs

  abbrev pub has_class : ℕ → Served → Bool
  has_class c r = in_class (class_index r.resp.status) c

  unfoldable pub count : (Served → Bool) → List Served → ℕ
  count p [] = 0
  count p (r ∷ rs) = indicator (p r) + count p rs

  Served-Counts : (r : Served) → Counts r.resp.status r.elapsed r.ops
  Served-Counts r =
      let (resp, ops, e, s, c) = settle_lem h headers r.elapsed r.result in
      let q : (resp, ops) ≡ (r.resp, r.ops) = cc in
      subst (λ (t : Response h (ProxyBody h) × List Add). Counts t.0.status r.elapsed t.1) q c

  -- The buckets of the requests that a test picks.
  unfoldable picked : (Served → Bool) → List Served → List ℕ
  picked p [] = []
  picked p (r ∷ rs) = let rest = picked p rs in if p r then bucket_of r.elapsed ∷ rest else rest

  length-picked : (p : Served → Bool) (rs : List Served) → length (picked p rs) ≤ length rs
  unfolding picked
  length-picked p [] = omega arith
  length-picked p (r ∷ rs) = ground (arith, length-picked p rs)

  at_most-picked :
      (p : Served → Bool) (rs : List Served) (k le : ℕ)
      → get_elem? latency_buckets k ≡ some le
      → at_most (picked p rs) k ≡ count (λ r. p r && leb r.elapsed le) rs
  unfolding picked at_most count
  at_most-picked p [] k le e = refl
  at_most-picked p (r ∷ rs) k le e =
      ground (arith, latency-leb k le r.elapsed e, at_most-picked p rs k le e)

  cumulate-picked :
      (load : ℕ → ℕ) (p : Served → Bool) (rs : List Served) (k le : ℕ)
      → get_elem? latency_buckets k ≡ some le
      → length rs < u64_mod
      → ((b : ℕ) → b ≤ k → load b ≡ hits (picked p rs) b)
      → get_elem? (cumulate load 0 0 latency_buckets) k
        ≡ some (count (λ r. p r && leb r.elapsed le) rs)
  cumulate-picked load p rs k le e few h =
      let s = sum_upto-ext load (hits (picked p rs)) 0 k (λ b l. h b (omega arith)) in
      let t = sum_upto-hits (picked p rs) k in
      let n = at_most-length (picked p rs) k in
      get_elem?-cumulate load latency_buckets 0 0 k le e (omega (arith, length-picked p rs))
      ∙ ap some (omega (arith, at_most-picked p rs k le e))

  sum-total : (rs : List Served) → sum_threads requests_total (threads rs) ≡ length rs
  unfolding sum_threads
  sum-total [] = refl
  sum-total (r ∷ rs) = omega (arith, (Served-Counts r).total_eq, sum-total rs)

  sum-class :
      (c : ℕ) (rs : List Served) → sum_threads (responses c) (threads rs) ≡ count (has_class c) rs
  unfolding sum_threads count
  sum-class c [] = refl
  sum-class c (r ∷ rs) = omega (arith, (Served-Counts r).class_eq c, sum-class c rs)

  sum-bucket :
      (b : ℕ) (rs : List Served)
      → b < length latency_buckets
      → sum_threads (duration_bucket b) (threads rs) ≡ hits (picked (λ r. true) rs) b
  unfolding sum_threads hits picked
  sum-bucket b [] l = refl
  sum-bucket b (r ∷ rs) l = ground (arith, (Served-Counts r).bucket_eq b, sum-bucket b rs l)

  sum-class_bucket :
      (c b : ℕ) (rs : List Served)
      → b < length latency_buckets
      → sum_threads (class_bucket c b) (threads rs) ≡ hits (picked (has_class c) rs) b
  unfolding sum_threads hits picked
  sum-class_bucket c b [] l = refl
  sum-class_bucket c b (r ∷ rs) l =
      ground (arith, (Served-Counts r).class_bucket_eq c b, sum-class_bucket c b rs l)

  count-length : (p : Served → Bool) (rs : List Served) → count p rs ≤ length rs
  unfolding count
  count-length p [] = omega arith
  count-length p (r ∷ rs) = ground (arith, count-length p rs)

  -- After fewer than 2^64 answered requests, in whatever order their additions took place, a scrape
  -- prints for each bound the number of the requests that took at most as long, and as the count of
  -- all observations the number of the requests.
  pub render_global-Interleaved :
      (rs : List Served) (ops : List Add) (k le : ℕ)
      → Interleaved (threads rs) ops
      → length rs < u64_mod
      → get_elem? latency_buckets k ≡ some le
      → (get_elem? (render_global (perform new ops)).buckets k
          ≡ some (count (λ r. leb r.elapsed le) rs))
        × ((render_global (perform new ops)).count ≡ length rs)
  unfolding render_global
  render_global-Interleaved rs ops k le i few e = (
    cumulate-picked (λ b. perform new ops (duration_bucket b)) (λ r. true) rs k le e few
        λ b l. omega (
          arith,
          perform-Interleaved (threads rs) ops (duration_bucket b) i,
          sum-bucket b rs (omega (arith, lt-of_get_elem? latency_buckets k e)),
          hits-length (picked (λ r. true) rs) b,
          length-picked (λ r. true) rs,
        ),
    omega (arith, perform-Interleaved (threads rs) ops requests_total i, sum-total rs),
  )

  -- The same holds in each status class: a scrape prints for each bound the number of the responses
  -- of the class that took at most as long, and as their count the number of the responses of the
  -- class.
  pub render_class-Interleaved :
      (rs : List Served) (ops : List Add) (c k le : ℕ)
      → Interleaved (threads rs) ops
      → length rs < u64_mod
      → get_elem? latency_buckets k ≡ some le
      → (get_elem? (render_class (perform new ops) c).buckets k
          ≡ some (count (λ r. has_class c r && leb r.elapsed le) rs))
        × ((render_class (perform new ops) c).count ≡ count (has_class c) rs)
  unfolding render_class
  render_class-Interleaved rs ops c k le i few e = (
    cumulate-picked (λ b. perform new ops (class_bucket c b)) (has_class c) rs k le e few
        λ b l. omega (
          arith,
          perform-Interleaved (threads rs) ops (class_bucket c b) i,
          sum-class_bucket c b rs (omega (arith, lt-of_get_elem? latency_buckets k e)),
          hits-length (picked (has_class c) rs) b,
          length-picked (has_class c) rs,
        ),
    omega (
      arith,
      perform-Interleaved (threads rs) ops (responses c) i,
      sum-class c rs,
      count-length (has_class c) rs,
    ),
  )
