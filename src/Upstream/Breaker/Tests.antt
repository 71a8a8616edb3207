-- ===== src/Upstream/Breaker/Tests.antt =====
-- The breaker on concrete histories.
use ferroxy.Prelude.{
  ℕ, zero, suc, ◌*◌, ◌<◌, ◌≡◌, refl, ◌%◌, List, [], ◌∷◌, arith, u32_mod, ◌+◌, replicate, ap, ◌∙◌,
  if◌then◌else◌,
}
use ferroxy.Upstream.Breaker.{
  Breaker, BreakerConfig, allow, reject, closed, open_, half_open, new, check, snapshot, on_failure,
  now_ms, default_config,
}
use ferroxy.Upstream.Breaker.History.{
  Event, succeeded, failed, run, record_event, consecutive, must_reject, check-run,
  check-run_wrapped,
}

abbrev second : ℕ
second = 1_000_000_000

abbrev two_strikes : BreakerConfig
two_strikes = record { threshold = 2; cooldown = 10 * second }

abbrev two_failures : List Event
two_failures = failed (4 * second) ∷ failed (3 * second) ∷ succeeded ∷ failed second ∷ []

rejects_in_cooldown : check (run (new two_strikes 0) two_failures) (13 * second) ≡ reject
unfolding check run new record_event on_failure now_ms ferroxy.Upstream.Breaker.on_success
rejects_in_cooldown = refl

allows_after_cooldown : check (run (new two_strikes 0) two_failures) (14 * second) ≡ allow
unfolding check run new record_event on_failure now_ms ferroxy.Upstream.Breaker.on_success
allows_after_cooldown = refl

few : consecutive two_failures < u32_mod
unfolding consecutive
few = ground arith

check-run_example :
    check (run (new two_strikes 0) two_failures) (13 * second)
    ≡ (if must_reject two_strikes 0 two_failures (13 * second) then reject else allow)
check-run_example = check-run two_strikes 0 two_failures (13 * second) few

consecutive-replicate : (n now : ℕ) → consecutive (replicate n (failed now)) ≡ n
unfolding consecutive
consecutive-replicate zero now = refl
consecutive-replicate (suc n) now = ap suc (consecutive-replicate n now)

abbrev endless : List Event
endless = replicate u32_mod (failed (3 * second))

wrapped : consecutive endless % u32_mod ≡ 0
wrapped = ap (λ n. n % u32_mod) (consecutive-replicate u32_mod (3 * second)) ∙ refl

check-run_wrapped_example : check (run (new two_strikes 0) endless) (3 * second) ≡ allow
check-run_wrapped_example = check-run_wrapped two_strikes 0 endless (3 * second) wrapped

abbrev tripped : Breaker
tripped = record {
  threshold = 2;
  cooldown_ms = 10_000;
  anchor = 0;
  failures = 2;
  open_until_ms = 14_000;
}

two_positive : 0 < tripped.threshold
two_positive = omega arith

counter_fits : tripped.failures + 1 < u32_mod
counter_fits = ground arith

strikes_positive : 0 < two_strikes.threshold
strikes_positive = omega arith
