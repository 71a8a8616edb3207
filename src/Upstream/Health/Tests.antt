-- ===== src/Upstream/Health/Tests.antt =====
-- The probes on concrete backends.
use ferroxy.Prelude.{
  ℕ, ◌+◌, ◌*◌, ◌≤◌, ◌<◌, ◌≡◌, refl, ◌&&◌, min, max, Bool, true, false, List, [], ◌∷◌, Option, none,
  some, length, get_elem?, ltb, leb, if◌then◌else◌, u32_mod, u32_max, arith, from_secs, replicate,
}
use ferroxy.Prelude.Text.{Text, codes}
use ferroxy.Upstream.Breaker.{Breaker, BreakerConfig, allow, reject, check, default_config}
use ferroxy.Upstream.Breaker
use ferroxy.Upstream.Breaker.History.{succeeded, since, deadline, run}
use ferroxy.Upstream.Health.{
  ProbeConfig, Probe, ProbeClient, ProbeReply, replied, client_failed, Step, probed, traffic, start,
  run_one, tasks, breaker_of, probe_once, sleep_loop, nap,
}
use ferroxy.Upstream.Health.Laws.{failing, seen, breaker-run_one, check-failing}

abbrev config : ProbeConfig
config = record {
  path = codes "healthz";
  interval = from_secs 1;
  timeout = from_secs 2;
  unhealthy_threshold = 3;
  healthy_threshold = 1;
  tls = none;
}

-- A client that reaches one backend, at the path it knows.
abbrev client : ProbeClient
client = record {
  Uri = Text;
  Request = Text;
  parse = some;
  get_request = some;
  request = λ timeout uri.
      if ferroxy.Prelude.Text.text_eq uri (codes "http://10.0.0.1:80/healthz")
      then replied 204
      else client_failed;
}

adds_slash : probe_once client (codes "http") (codes "10.0.0.1:80") (codes "healthz") 0 ≡ true
unfolding probe_once ferroxy.Prelude.Text.text_eq ferroxy.Prelude.Text.starts_with
adds_slash = refl

abbrev mixed : List Step
mixed = probed false 9 ∷ traffic succeeded ∷ probed false 7 ∷ probed false 5 ∷ probed true 3 ∷ []

abbrev fresh : Breaker
fresh = record { threshold = 5; cooldown_ms = 30_000; anchor = 0; failures = 0; open_until_ms = 0 }

breaker-run_one_example :
    (run_one config (start fresh) mixed).breaker ≡ run fresh (seen config mixed)
breaker-run_one_example = breaker-run_one config fresh mixed (omega arith) (omega arith)

abbrev instants : List ℕ
instants = 6 ∷ 5 ∷ 4 ∷ 3 ∷ 2 ∷ 1 ∷ []

check-failing_example :
    check (run_one config (start (Breaker.new default_config 0)) (failing (7 ∷ instants))).breaker 9
    ≡ (if ltb 0 default_config.threshold
          && leb
              (max config.unhealthy_threshold 1 + default_config.threshold)
              (length (7 ∷ instants) + 1)
          && ltb (since 0 9) (deadline default_config 0 7)
        then reject
        else allow)
check-failing_example =
    check-failing config default_config 0 7 instants 9 (omega arith) (omega arith) (omega arith)

three_probes_allow :
    check
      (run_one config (start (Breaker.new default_config 0)) (failing (3 ∷ 2 ∷ 1 ∷ []))).breaker
      9
    ≡ allow
unfolding run_one failing check ferroxy.Upstream.Health.take_step ferroxy.Upstream.Health.observe
    ferroxy.Upstream.Breaker.new ferroxy.Upstream.Breaker.on_failure ferroxy.Upstream.Breaker.now_ms
three_probes_allow = refl

abbrev no_flag : ℕ → Bool
no_flag i = false

naps : sleep_loop 10 no_flag 0 (nap * 2 + 5) ≡ some (nap ∷ nap ∷ 5 ∷ [])
unfolding sleep_loop
naps = refl
