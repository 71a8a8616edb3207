-- ===== src/Upstream/Health.antt =====
-- crates/conduit-upstream/src/health.rs. The HTTP client of a probe is a parameter; instants and durations
-- count nanoseconds. A backend's loop shares its breaker with the requests, so a run of it is a list
-- of steps in which both take turns.
pub mod Laws
pub mod Sleep
mod Tests
use ferroxy.Prelude.{
  ℕ, zero, suc, ◌+◌, ◌-◌, min, ltb, leb, ◌==◌, if◌then◌else◌, Bool, true, false, not, ◌&&◌, ◌||◌,
  List, [], ◌∷◌, ◌++◌, Option, none, some, length, get_elem?, from_millis, sat_add_u32,
}
use ferroxy.Prelude.Text.{Text, codes, starts_with}
use ferroxy.Prelude.Checked.{Checked, expect}
use ferroxy.Prelude.Result.{Result, ok, err, ◌>>=◌}
use ferroxy.Upstream.Breaker.{Breaker, on_success, on_failure}
use ferroxy.Upstream.Breaker.History.{Event, record_event}
use ferroxy.Upstream.Pool.{SocketAddr}
use ferroxy.Upstream.Tls.{
  UpstreamTlsOptions, TlsLoadError, TlsLibrary, ClientConfig, build_https_connector,
}

pub record ProbeConfig : Type 0 where
  pub path : Text
  pub interval : ℕ
  pub timeout : ℕ
  pub unhealthy_threshold : ℕ
  pub healthy_threshold : ℕ
  pub tls : Option UpstreamTlsOptions

pub record Probe (l : TlsLibrary) : Type 0 where
  pub addrs : List SocketAddr
  pub breakers : List Breaker
  pub cfg : ProbeConfig
  pub client : ClientConfig l
  pub scheme : Text

abbrev pub scheme_of : Option UpstreamTlsOptions → Text
scheme_of none = codes "http"
scheme_of (some opts) = codes "https"

unfoldable pub new :
    (l : TlsLibrary) → List SocketAddr → List Breaker → ProbeConfig → Result TlsLoadError (Probe l)
new l addrs breakers cfg = do
  connector ← build_https_connector l cfg.tls
  ok (record {
    addrs = addrs;
    breakers = breakers;
    cfg = cfg;
    client = connector;
    scheme = scheme_of cfg.tls;
  })

-- The tasks that `Probe::run` spawns, as pairs of an index and an address.
unfoldable pub tasks : {l : TlsLibrary} → Probe l → ℕ → List SocketAddr → List (ℕ × SocketAddr)
tasks p idx [] = []
tasks p idx (addr ∷ addrs) =
    let rest = tasks p (idx + 1) addrs in
    if leb (length p.breakers) idx then rest else (idx, addr) ∷ rest

-- `&breakers[idx]`, with which a task begins.
unfoldable pub breaker_of : {l : TlsLibrary} → Probe l → ℕ × SocketAddr → Checked Breaker
breaker_of p (idx, addr) = expect (get_elem? p.breakers idx)

-- How `tokio::time::timeout(timeout, client.request(req))` ends: with the status of a response, an
-- error of the client, or the timeout.
pub data ProbeReply : Type 0 where
  replied : ℕ → ProbeReply
  client_failed timed_out : ProbeReply

-- The parser of URIs, the builder of a GET request, and the client under a timeout.
pub record ProbeClient : Type 1 where
  pub Uri : Type 0
  pub Request : Type 0
  pub parse : Text → Option Uri
  pub get_request : Uri → Option Request
  pub request : ℕ → Request → ProbeReply

abbrev pub path_normalized : Text → Text
path_normalized path = if starts_with path (codes "/") then path else codes "/" ++ path

-- `StatusCode::is_success`
abbrev pub is_success : ℕ → Bool
is_success status = leb 200 status && ltb status 300

abbrev pub judge : ProbeReply → Bool
judge (replied status) = is_success status
judge client_failed = false
judge timed_out = false

unfoldable pub probe_once : (c : ProbeClient) → Text → SocketAddr → Text → ℕ → Bool
probe_once c scheme addr path timeout =
    elim (c.parse (scheme ++ codes "://" ++ addr ++ path_normalized path)) [
      | none ↦ false
      | some uri ↦ elim (c.get_request uri) [
        | none ↦ false
        | some req ↦ judge (c.request timeout req)
      ]
    ]

-- The variables of `run_one` and the breaker that it shares.
pub record Prober : Type 0 where
  pub consecutive_fail : ℕ
  pub consecutive_ok : ℕ
  pub breaker : Breaker

abbrev pub start : Breaker → Prober
start b = record { consecutive_fail = 0; consecutive_ok = 0; breaker = b }

-- The body of the loop after a probe, at the instant `now`.
unfoldable pub observe : ProbeConfig → Prober → Bool → ℕ → Prober
observe cfg p true now =
    let oks = sat_add_u32 p.consecutive_ok 1 in
    record {
      consecutive_fail = 0;
      consecutive_ok = oks;
      breaker = if leb cfg.healthy_threshold oks then on_success p.breaker else p.breaker;
    }
observe cfg p false now =
    let fails = sat_add_u32 p.consecutive_fail 1 in
    record {
      consecutive_fail = fails;
      consecutive_ok = 0;
      breaker = if leb cfg.unhealthy_threshold fails then on_failure p.breaker now else p.breaker;
    }

-- A turn of the loop, or a request that records its outcome in the same breaker.
pub data Step : Type 0 where
  probed : Bool → ℕ → Step
  traffic : Event → Step

unfoldable pub take_step : ProbeConfig → Prober → Step → Prober
take_step cfg p (probed healthy now) = observe cfg p healthy now
take_step cfg p (traffic e) = record p { breaker = record_event p.breaker e }

-- The newest step stands first.
unfoldable pub run_one : ProbeConfig → Prober → List Step → Prober
run_one cfg p [] = p
run_one cfg p (s ∷ h) = take_step cfg (run_one cfg p h) s

abbrev pub nap : ℕ
nap = from_millis 250

-- The sleeps between two probes; `cancelled i` is the flag before the sleep `i`, and the first number
-- bounds the rounds.
unfoldable pub sleep_loop : ℕ → (ℕ → Bool) → ℕ → ℕ → Option (List ℕ)
sleep_loop zero cancelled i remaining = none
sleep_loop (suc rounds) cancelled i remaining =
    let s = min nap remaining in
    let rest : Option (List ℕ) = sleep_loop rounds cancelled (i + 1) (remaining - s) in
    if not (cancelled i) && not (remaining == 0)
    then elim rest [ none ↦ none | some sleeps ↦ some (s ∷ sleeps) ]
    else some []
