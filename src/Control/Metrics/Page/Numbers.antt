-- ===== src/Control/Metrics/Page/Numbers.antt =====
-- The numbers that a reader finds on the page of `/metrics`, crates/conduit-control/src/metrics.rs.
use ferroxy.Prelude.{
  ℕ, ◌+◌, ◌<◌, ◌≡◌, refl, ap, ◌∙◌, sym, true, List, [], ◌∷◌, ◌++◌, map, some, arith, all, All,
  All-append, u64_mod,
}
use ferroxy.Prelude.Text.{Text, codes}
use ferroxy.Prelude.Decimal.{show, read, read-show, all-show}
use ferroxy.Control.Metrics.{
  MetricsHandle, Counter, requests_total, requests_no_route, requests_upstream_unknown,
  requests_upstream_failed, responses, render_global, render_class, cumulate, Add, new, perform,
  fetch_add, latency_buckets,
}
use ferroxy.Control.Metrics.Page.{
  Line, sample, print, counts, header, one_counter, Family, total, no_route, upstream_unknown,
  upstream_failed, by_status, latency, latency_by_class, uptime_gauge, build_gauge, class_labels,
  responses_name, class_sum_name, global_names, class_names, whole, counter_lines, global_lines,
  class_lines, render_lines, render, gauge_lines, version_name, metrics_page,
}
use ferroxy.Control.Metrics.Page.Scrape.{
  Sample, read_page, samples, IsClean, no_newline, is_name, samples-append, print-append,
  read-print,
}

abbrev pub numbered : List Text → List ℕ → List Sample
numbered [] ns = []
numbered (name ∷ names) [] = []
numbered (name ∷ names) (n ∷ ns) = (name, some n) ∷ numbered names ns

no_newline-show : (n : ℕ) → no_newline (show n) ≡ true
no_newline-show n = all-show _ n (λ c h. ground arith)

counts-IsClean :
    (names : List Text) (ns : List ℕ) → all is_name names ≡ true → All IsClean (counts names ns)
unfolding counts
counts-IsClean [] ns h = tt
counts-IsClean (name ∷ names) [] h = tt
counts-IsClean (name ∷ names) (n ∷ ns) h =
    ((ground arith, no_newline-show n), counts-IsClean names ns (ground arith))

samples-counts :
    (names : List Text) (ns : List ℕ)
    → All (λ n. n < u64_mod) ns
    → samples (counts names ns) ≡ numbered names ns
unfolding counts
samples-counts [] ns a = refl
samples-counts (name ∷ names) [] a = refl
samples-counts (name ∷ names) (n ∷ ns) (h, a) =
    ground (arith, read-show n h, samples-counts names ns a)

cumulate-lt :
    (load : ℕ → ℕ) (i acc : ℕ) (les : List ℕ) → All (λ n. n < u64_mod) (cumulate load i acc les)
unfolding cumulate
cumulate-lt load i acc [] = tt
cumulate-lt load i acc (le ∷ les) = (ground arith, cumulate-lt load (i + 1) _ les)

-- What the page says, histogram by histogram.
module _ (seconds : ℕ → Text) (m : MetricsHandle) where
  abbrev pub global_samples : List Sample
  global_samples =
      numbered global_names (whole (render_global m))
      ++ ((codes "conduit_request_duration_seconds_sum", read (seconds (render_global m).sum_us))
          ∷ [])

  abbrev pub class_samples : ℕ → List Text → List Sample
  class_samples idx [] = []
  class_samples idx (class ∷ classes) =
      numbered (class_names class) (whole (render_class m idx))
      ++ ((class_sum_name class, read (seconds (render_class m idx).sum_us))
          ∷ class_samples (idx + 1) classes)

  abbrev pub counter_samples : List Sample
  counter_samples =
      (codes "conduit_requests_total", some (m requests_total))
      ∷ (codes "conduit_requests_no_route_total", some (m requests_no_route))
      ∷ (codes "conduit_requests_upstream_unknown_total", some (m requests_upstream_unknown))
      ∷ (codes "conduit_requests_upstream_failed_total", some (m requests_upstream_failed))
      ∷ (codes "conduit_responses_total{class=\"2xx\"}", some (m (responses 0)))
      ∷ (codes "conduit_responses_total{class=\"3xx\"}", some (m (responses 1)))
      ∷ (codes "conduit_responses_total{class=\"4xx\"}", some (m (responses 2)))
      ∷ (codes "conduit_responses_total{class=\"5xx\"}", some (m (responses 3)))
      ∷ []

  abbrev pub page_samples : Text → Text → List Sample
  page_samples uptime version =
      (codes "conduit_uptime_seconds", read uptime)
      ∷ (version_name version, some 1)
      ∷ (counter_samples ++ (global_samples ++ class_samples 0 class_labels))

-- Lines that can be read, and the samples that they give.
pub record Reads (ls : List Line) (ss : List Sample) : Type 0 where
  clean : All IsClean ls
  found : samples ls ≡ ss

Reads-append :
    {ls ls' : List Line} {ss ss' : List Sample}
    → Reads ls ss
    → Reads ls' ss'
    → Reads (ls ++ ls') (ss ++ ss')
Reads-append {ls} {ls'} r r' = record {
  clean = All-append IsClean ls ls' r.clean r'.clean;
  found = rw (← r.found, ← r'.found) (samples-append ls ls');
}

abbrev CleanFamily : Family → Type 0
CleanFamily f =
    (no_newline (codes "HELP " ++ (f.name ++ (codes " " ++ f.help))) ≡ true)
    × (no_newline (codes "TYPE " ++ (f.name ++ (codes " " ++ f.kind))) ≡ true)

header-Reads : (f : Family) → CleanFamily f → Reads (header f) []
header-Reads f (h, k) = record { clean = (h, (k, tt)); found = refl }

counts-Reads :
    (names : List Text) (ns : List ℕ)
    → all is_name names ≡ true
    → All (λ n. n < u64_mod) ns
    → Reads (counts names ns) (numbered names ns)
counts-Reads names ns h a = record {
  clean = counts-IsClean names ns h;
  found = samples-counts names ns a;
}

sample-Reads :
    (name value : Text)
    → is_name name ≡ true
    → no_newline value ≡ true
    → Reads (sample name value ∷ []) ((name, read value) ∷ [])
sample-Reads name value h k = record { clean = ((h, k), tt); found = refl }

pub read-Reads : {ls : List Line} {ss : List Sample} → Reads ls ss → read_page (print ls) ≡ ss
read-Reads {ls} r = read-print ls r.clean ∙ r.found

gauge_lines-Reads :
    (uptime version : Text)
    → no_newline uptime ≡ true
    → is_name (version_name version) ≡ true
    → Reads
        (gauge_lines uptime version)
        ((uptime_gauge.name, read uptime) ∷ (version_name version, some 1) ∷ [])
unfolding gauge_lines read
gauge_lines-Reads uptime version u v = Reads-append (header-Reads uptime_gauge (refl, refl)) (
    Reads-append (sample-Reads uptime_gauge.name uptime refl u) (
      Reads-append (header-Reads build_gauge (refl, refl))
        (sample-Reads (version_name version) (codes "1") v refl)))

module _ (seconds : ℕ → Text) (m : MetricsHandle)
    (plain_seconds : (us : ℕ) → no_newline (seconds us) ≡ true)
    (fits : (c : Counter) → m c < u64_mod) where
  one_counter-Reads :
      (f : Family) (c : Counter)
      → CleanFamily f
      → is_name f.name ≡ true
      → Reads (one_counter seconds m f c) ((f.name, some (m c)) ∷ [])
  one_counter-Reads f c h n =
      Reads-append (header-Reads f h)
        (counts-Reads (f.name ∷ []) (m c ∷ []) (ground arith) (fits c, tt))

  counter_lines-Reads : Reads (counter_lines seconds m) (counter_samples seconds m)
  unfolding counter_lines
  counter_lines-Reads = Reads-append (one_counter-Reads total requests_total (refl, refl) refl) (
      Reads-append (one_counter-Reads no_route requests_no_route (refl, refl) refl) (
        Reads-append
          (one_counter-Reads upstream_unknown requests_upstream_unknown (refl, refl) refl)
          (Reads-append
            (one_counter-Reads upstream_failed requests_upstream_failed (refl, refl) refl)
            (Reads-append (header-Reads by_status (refl, refl)) (
              counts-Reads (map responses_name class_labels)
                (m (responses 0) ∷ m (responses 1) ∷ m (responses 2) ∷ m (responses 3) ∷ []) refl
                (
                  fits (responses 0),
                  (fits (responses 1), (fits (responses 2), (fits (responses 3), tt))),
                ))))))

  whole-lt :
      (bs : List ℕ) (n : ℕ)
      → All (λ k. k < u64_mod) bs
      → n < u64_mod
      → All (λ k. k < u64_mod) (bs ++ (n ∷ n ∷ []))
  whole-lt bs n a h = All-append (λ k. k < u64_mod) bs (n ∷ n ∷ []) a (h, (h, tt))

  global_lines-Reads : Reads (global_lines seconds m) (global_samples seconds m)
  unfolding global_lines render_global
  global_lines-Reads = Reads-append (header-Reads latency (refl, refl)) (
      Reads-append
        (counts-Reads global_names _ refl
          (whole-lt _ _ (cumulate-lt _ 0 0 latency_buckets) (fits requests_total)))
        (sample-Reads _ _ refl (plain_seconds _)))

  -- The names of the samples of a class.
  abbrev NamesOf : Text → Type 0
  NamesOf class = (all is_name (class_names class) ≡ true) × (is_name (class_sum_name class) ≡ true)

  class_lines-Reads :
      (idx : ℕ) (classes : List Text)
      → All NamesOf classes
      → Reads (class_lines seconds m idx classes) (class_samples seconds m idx classes)
  unfolding class_lines render_class
  class_lines-Reads idx [] a = record { clean = tt; found = refl }
  class_lines-Reads idx (class ∷ classes) ((h, k), a) =
      Reads-append
        (counts-Reads (class_names class) _ h
          (whole-lt _ _ (cumulate-lt _ 0 0 latency_buckets) (fits (responses idx))))
        (Reads-append (sample-Reads _ _ k (plain_seconds _))
          (class_lines-Reads (idx + 1) classes a))

  read-metrics_page_of_fits :
      (uptime version : Text)
      → no_newline uptime ≡ true
      → is_name (version_name version) ≡ true
      → read_page (metrics_page uptime version seconds m) ≡ page_samples seconds m uptime version
  unfolding metrics_page render render_lines gauge_lines
  read-metrics_page_of_fits uptime version u v =
      ap read_page (sym (print-append (gauge_lines uptime version) (render_lines seconds m)))
      ∙ read-Reads (
          Reads-append (gauge_lines-Reads uptime version u v) (
            Reads-append counter_lines-Reads (
              Reads-append global_lines-Reads (
                Reads-append (header-Reads latency_by_class (refl, refl)) (
                  class_lines-Reads 0 class_labels
                    ((refl, refl), ((refl, refl), ((refl, refl), ((refl, refl), tt)))))))))

perform-lt :
    (m : MetricsHandle) (adds : List Add) (c : Counter)
    → ((d : Counter) → m d < u64_mod)
    → perform m adds c < u64_mod
unfolding perform fetch_add
perform-lt m [] c h = h c
perform-lt m ((d, n) ∷ adds) c h = perform-lt (fetch_add m (d, n)) adds c (λ e. ground (arith, h e))

-- Whatever the counters have counted, a reader finds on the page each of their numbers under the name of
-- its counter, and the numbers of the histograms as they are computed, if the texts of the values
-- that are no whole numbers have no newline and the version has nothing that ends a name.
pub read-metrics_page :
    (seconds : ℕ → Text) (adds : List Add) (uptime version : Text)
    → ((us : ℕ) → no_newline (seconds us) ≡ true)
    → no_newline uptime ≡ true
    → is_name (version_name version) ≡ true
    → read_page (metrics_page uptime version seconds (perform new adds))
      ≡ page_samples seconds (perform new adds) uptime version
unfolding new
read-metrics_page seconds adds uptime version plain_seconds u v =
    read-metrics_page_of_fits seconds (perform new adds) plain_seconds
      (λ c. perform-lt new adds c (λ d. omega arith)) uptime version u v
