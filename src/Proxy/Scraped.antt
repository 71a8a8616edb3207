-- ===== src/Proxy/Scraped.antt =====
-- From the requests of `proxy_one`, crates/conduit/src/main.rs, to the numbers that a reader of `/metrics` of
-- crates/conduit-control/src/admin.rs gets.
use ferroxy.Prelude.{
  ℕ, zero, suc, ◌<◌, ◌≡◌, ap, true, leb, List, [], ◌∷◌, ◌++◌, map, Option, some, length, get_elem?,
  u64_mod,
}
use ferroxy.Http.{Http}
use ferroxy.Prelude.Text.{Text, codes, text_eq}
use ferroxy.Control.Admin.{handle_admin}
use ferroxy.Control.Metrics.{
  MetricsHandle, Add, new, perform, latency_buckets, requests_total, render_global,
}
use ferroxy.Control.Metrics.Sums.{Interleaved}
use ferroxy.Control.Metrics.Page.{
  bucket_labels, class_labels, inf, bucket_name, global_names, whole, version_name, metrics_page,
}
use ferroxy.Control.Metrics.Page.Scrape.{Sample, read_page, no_newline, is_name}
use ferroxy.Control.Metrics.Page.Numbers.{
  numbered, global_samples, class_samples, page_samples, read-metrics_page,
}
use ferroxy.Proxy.Served.{Served, threads, count, render_global-Interleaved}

-- A sample stands on a page.
abbrev pub Has : Text → Sample → Type 0
Has page s = (i : ℕ) × (get_elem? (read_page page) i ≡ some s)

get_elem?-append {ℓ} :
    {A : Type ℓ} (xs ys : List A) (k : ℕ) {a : A}
    → get_elem? xs k ≡ some a
    → get_elem? (xs ++ ys) k ≡ some a
get_elem?-append [] ys k e = cc
get_elem?-append (x ∷ xs) ys zero e = e
get_elem?-append (x ∷ xs) ys (suc k) e = get_elem?-append xs ys k e

get_elem?-map {ℓ κ} :
    {A : Type ℓ} {B : Type κ} (f : A → B) (xs : List A) (k : ℕ) {a : A}
    → get_elem? xs k ≡ some a
    → get_elem? (map f xs) k ≡ some (f a)
get_elem?-map f [] k e = cc
get_elem?-map f (x ∷ xs) zero e = cc
get_elem?-map f (x ∷ xs) (suc k) e = get_elem?-map f xs k e

get_elem?-numbered :
    (names : List Text) (ns : List ℕ) (k : ℕ) {name : Text} {n : ℕ}
    → get_elem? names k ≡ some name
    → get_elem? ns k ≡ some n
    → get_elem? (numbered names ns) k ≡ some (name, some n)
get_elem?-numbered [] ns k e f = cc
get_elem?-numbered (name ∷ names) [] k e f = cc
get_elem?-numbered (name ∷ names) (n ∷ ns) zero e f = cc
get_elem?-numbered (name ∷ names) (n ∷ ns) (suc k) e f = get_elem?-numbered names ns k e f

-- The answer to `GET /metrics`.
abbrev pub scrape : Text → Text → (ℕ → Text) → MetricsHandle → Option Text → Text
scrape uptime version seconds m view =
    (handle_admin (metrics_page uptime version seconds m) view (codes "GET")
      (codes "/metrics")).body

module _ (uptime version : Text) (seconds : ℕ → Text) (view : Option Text)
    (plain_seconds : (us : ℕ) → no_newline (seconds us) ≡ true)
    (plain_uptime : no_newline uptime ≡ true)
    (plain_version : is_name (version_name version) ≡ true) where
  read-scrape :
      (ops : List Add)
      → read_page (scrape uptime version seconds (perform new ops) view)
        ≡ page_samples seconds (perform new ops) uptime version
  unfolding handle_admin text_eq
  read-scrape ops =
      read-metrics_page seconds ops uptime version plain_seconds plain_uptime plain_version

module _ (h : Http) (headers : h.HeaderMap) (uptime version : Text) (seconds : ℕ → Text)
    (view : Option Text) (plain_seconds : (us : ℕ) → no_newline (seconds us) ≡ true)
    (plain_uptime : no_newline uptime ≡ true)
    (plain_version : is_name (version_name version) ≡ true) where
  -- After fewer than 2^64 answered requests, in whatever order their additions took place, a reader of
  -- `/metrics` finds the number of the requests, and for each bound the number of those that took at
  -- most as long, under the name with that bound.
  pub scrape-Interleaved :
      (rs : List (Served h headers)) (ops : List Add) (k le : ℕ) (label : Text)
      → Interleaved (threads h headers rs) ops
      → length rs < u64_mod
      → get_elem? latency_buckets k ≡ some le
      → get_elem? bucket_labels k ≡ some label
      → Has
          (scrape uptime version seconds (perform new ops) view)
          (codes "conduit_requests_total", some (length rs))
        × Has
            (scrape uptime version seconds (perform new ops) view)
            (bucket_name label, some (count h headers (λ r. leb r.elapsed le) rs))
  scrape-Interleaved rs ops k le label i few e f =
      let (bucket, total) = render_global-Interleaved h headers rs ops k le i few e in
      let p = render_global (perform new ops) in
      let names =
        get_elem?-append (map bucket_name bucket_labels)
          (bucket_name inf ∷ codes "conduit_request_duration_seconds_count" ∷ []) k
          (get_elem?-map bucket_name bucket_labels k f) in
      let numbers = get_elem?-append p.buckets (p.count ∷ p.count ∷ []) k bucket in
      let stands =
        get_elem?-append (global_samples seconds (perform new ops))
          (class_samples seconds (perform new ops) 0 class_labels) k
          (get_elem?-append (numbered global_names (whole p)) _ k
            (get_elem?-numbered global_names (whole p) k names numbers)) in
      let sum : perform new ops requests_total ≡ length rs = unfold render_global in total in
      let page =
        read-scrape uptime version seconds view plain_seconds plain_uptime plain_version ops in
      (
        (2, rw page (ap (λ (n : ℕ). some (codes "conduit_requests_total", some n)) sum)),
        (suc (suc (suc (suc (suc (suc (suc (suc (suc (suc k))))))))), rw page stands),
      )
