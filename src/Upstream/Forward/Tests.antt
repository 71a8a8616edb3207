-- ===== src/Upstream/Forward/Tests.antt =====
-- Two backends that fail twice before they answer.
use ferroxy.Prelude.{
  ℕ, zero, suc, ◌+◌, ◌*◌, ◌<◌, ◌≤◌, ◌≡◌, ◌≢◌, refl, List, [], ◌∷◌, some, none, All, arith, true,
  false, set, replicate, get_elem?, is_empty, length, u64_mod, if◌then◌else◌,
}
use ferroxy.Prelude.Text.{codes, Text, text_eq}
use ferroxy.Prelude.Checked.{done}
use ferroxy.Prelude.Result.{ok, err}
use ferroxy.Http.Sample.{sample_http, sample_http_laws, without}
use ferroxy.Upstream.Breaker.{Breaker, allow, reject, check, on_success, on_failure, now_ms}
use ferroxy.Upstream.Retry.{RetryPolicy, decide_status}
use ferroxy.Upstream.Pool.{Upstream, SocketAddr, pick_addr, scan, observe_breaker_outcome}
use ferroxy.Upstream.Pool.Select.{IsValid}
use ferroxy.Upstream.Timed
use ferroxy.Upstream.Forward.{
  Request, Reply, answered, broken, Response, Outgoing, Reported, forward, egress_parts, choose,
  rewrite_uri, buffered, conclude, send, proceed, attempts_loop, attempt_limit, http_2, http_11,
  breaker_open, retries_exhausted,
}
use ferroxy.Upstream.Forward.Attempts.{should_retry}
use ferroxy.Upstream.Forward.Promises.{
  delivered, is_healthy, forward_not_exhausted, forward_replied, forward_breaker_open,
}
use ferroxy.Upstream.Forward.Effects.{IsPlain, forward_records, forward-IsPlain}

abbrev second : ℕ
second = 1_000_000_000

abbrev thrice : RetryPolicy
thrice = record { attempts = 3; on_status = 503 ∷ []; on_connect_error = true }

abbrev well : Breaker
well = record { threshold = 2; cooldown_ms = 10_000; anchor = 0; failures = 1; open_until_ms = 0 }

abbrev tripped : Breaker
tripped = record {
  threshold = 2;
  cooldown_ms = 10_000;
  anchor = 0;
  failures = 2;
  open_until_ms = 14_000;
}

abbrev addrs : List SocketAddr
addrs = codes "10.0.0.1:80" ∷ codes "10.0.0.2:80" ∷ []

abbrev pool_of : List Breaker → Upstream
pool_of breakers = record {
  retry = thrice;
  addrs = addrs;
  authorities = addrs;
  next = 0;
  breakers = breakers;
}

abbrev mixed : Upstream
mixed = pool_of (tripped ∷ well ∷ [])

abbrev down : Upstream
down = pool_of (tripped ∷ tripped ∷ [])

mixed-IsValid : IsValid mixed
mixed-IsValid = record {
  breakers_parallel = refl;
  authorities_parallel = refl;
  fits = omega arith;
  next_fits = omega arith;
}

down-IsValid : IsValid down
down-IsValid = record {
  breakers_parallel = refl;
  authorities_parallel = refl;
  fits = omega arith;
  next_fits = omega arith;
}

abbrev get_index : Request sample_http
get_index = record {
  parts = record {
    method = codes "GET";
    uri = record {
      scheme = some (codes "https");
      authority = some (codes "example.com");
      path_and_query = some (codes "/index");
    };
    version = http_2;
    headers = (codes "host", codes "example.com") ∷ (codes "accept", codes "*/*") ∷ [];
  };
  body = record { exact = some 0; collect = none };
}

abbrev answer : Response sample_http Text
answer = record { status = 200; headers = []; body = codes "hello" }

-- The first attempt fails to connect, the second gets a 503, the third succeeds.
flaky : ℕ → Outgoing sample_http → Reply sample_http
flaky zero out = broken true
flaky (suc zero) out = answered (record { status = 503; headers = []; body = [] })
flaky (suc (suc n)) out = answered answer

abbrev clock : ℕ → ℕ
clock n = (10 + n) * second

abbrev sent_out : Outgoing sample_http
sent_out = (
  record {
    method = codes "GET";
    uri = record {
      scheme = some (codes "http");
      authority = some (codes "10.0.0.2:80");
      path_and_query = some (codes "/index");
    };
    version = http_11;
    headers = (codes "accept", codes "*/*") ∷ [];
  },
  [],
)

abbrev report : Reported sample_http
report = (
  ok (record { status = 200; headers = []; body = Timed.new (codes "hello") 30 }),
  record mixed { next = 1; breakers = tripped ∷ record well { failures = 0 } ∷ [] },
  sent_out ∷ sent_out ∷ sent_out ∷ [],
)

flaky_run : forward sample_http flaky clock mixed get_index 30 ≡ done report
unfolding forward choose proceed send buffered conclude attempts_loop egress_parts rewrite_uri flaky
    pick_addr scan check now_ms decide_status observe_breaker_outcome on_success without text_eq
flaky_run = refl

abbrev refusal : Reported sample_http
refusal = (err breaker_open, record down { next = 1 }, [])

down_run : forward sample_http flaky clock down get_index 30 ≡ done refusal
unfolding forward choose proceed egress_parts pick_addr scan check now_ms without text_eq
down_run = refl

was_sent : report.2 ≢ []
was_sent e = cc

has_backends : is_empty mixed.addrs ≡ false
has_backends = refl

room : down.next + length down.addrs ≤ u64_mod
room = omega arith

forward_not_exhausted_example : report.0 ≢ err (retries_exhausted 503)
forward_not_exhausted_example =
    forward_not_exhausted sample_http flaky clock mixed get_index 30 503 report mixed-IsValid
      flaky_run

forward_replied_example :
    (out : Outgoing sample_http) × (k : ℕ) × (k < attempt_limit thrice)
    × (report.0 ≡ delivered 30 (flaky k out))
    × (report.2 ≡ replicate (suc k) out)
    × (should_retry thrice k (flaky k out) ≡ false)
    × ((j : ℕ) → j < k → should_retry thrice j (flaky j out) ≡ true)
forward_replied_example =
    forward_replied sample_http flaky clock mixed get_index 30 report mixed-IsValid flaky_run
      was_sent

forward_breaker_open_example :
    (refusal.2 ≡ []) × All (λ b. check b (clock 0) ≡ reject) down.breakers
forward_breaker_open_example =
    forward_breaker_open sample_http flaky clock down get_index 30 refusal down-IsValid room
      down_run refl

forward-IsPlain_example : All (IsPlain sample_http) report.2
forward-IsPlain_example =
    forward-IsPlain sample_http flaky clock mixed get_index 30 report mixed-IsValid sample_http_laws
      has_backends flaky_run

forward_records_example :
    (i : ℕ) × (b : Breaker) × (k : ℕ) × (out : Outgoing sample_http) × (get_elem? mixed.breakers i
      ≡ some b)
    × (check b (clock 0) ≡ allow)
    × (report.2 ≡ replicate (suc k) out)
    × (report.1.breakers
        ≡ set mixed.breakers i
            (if is_healthy (flaky k out) then on_success b else on_failure b (clock (suc k))))
forward_records_example =
    forward_records sample_http flaky clock mixed get_index 30 report mixed-IsValid has_backends
      flaky_run was_sent
