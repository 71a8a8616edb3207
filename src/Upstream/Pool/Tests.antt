-- ===== src/Upstream/Pool/Tests.antt =====
-- Three backends, one of which has tripped.
use ferroxy.Prelude.{
  ◌<◌, true, ℕ, ◌+◌, ◌*◌, ◌≤◌, ◌≡◌, ◌≢◌, refl, List, [], ◌∷◌, some, none, All, arith, false, length,
  u64_mod, u64_max,
}
use ferroxy.Prelude.Text.{codes}
use ferroxy.Prelude.Checked.{done}
use ferroxy.Upstream.Breaker.{
  Breaker, allow, reject, closed, open_, half_open, check, snapshot, on_success, on_failure, now_ms,
  default_config,
}
use ferroxy.Upstream.Breaker
use ferroxy.Upstream.Pool.Reach.{Reached, built, picked, observed}
use ferroxy.Upstream.Retry.{no_retry}
use ferroxy.Upstream.Pool.{
  Upstream, SocketAddr, new_breakers, with_options, pick_addr, scan, breaker_state,
  observe_breaker_outcome, tally,
}
use ferroxy.Upstream.Pool.Select.{IsValid}
use ferroxy.Upstream.Pool.Degraded.{pick_addr_wrapped}

abbrev second : ℕ
second = 1_000_000_000

abbrev well : Breaker
well = record { threshold = 2; cooldown_ms = 10_000; anchor = 0; failures = 1; open_until_ms = 0 }

abbrev tripped : Breaker
tripped = record {
  threshold = 2;
  cooldown_ms = 10_000;
  anchor = 0;
  failures = 2;
  open_until_ms = 14_000;
}

abbrev addrs : List SocketAddr
addrs = codes "10.0.0.1:80" ∷ codes "10.0.0.2:80" ∷ codes "10.0.0.3:80" ∷ []

abbrev pool_of : List Breaker → ℕ → Upstream
pool_of breakers next = record {
  retry = no_retry;
  addrs = addrs;
  authorities = addrs;
  next = next;
  breakers = breakers;
}

abbrev mixed : Upstream
mixed = pool_of (tripped ∷ well ∷ tripped ∷ []) 2

abbrev down : Upstream
down = pool_of (tripped ∷ tripped ∷ tripped ∷ []) 2

mixed-IsValid : IsValid mixed
mixed-IsValid = record {
  breakers_parallel = refl;
  authorities_parallel = refl;
  fits = omega arith;
  next_fits = omega arith;
}

down-IsValid : IsValid down
down-IsValid = record {
  breakers_parallel = refl;
  authorities_parallel = refl;
  fits = omega arith;
  next_fits = omega arith;
}

-- From the third backend on, the second is the first whose breaker allows the request.
skips_tripped :
    pick_addr mixed (13 * second) ≡ done (some (codes "10.0.0.2:80", 1), record mixed { next = 3 })
unfolding pick_addr scan check now_ms
skips_tripped = refl

finds_none : pick_addr down (13 * second) ≡ done (none, record down { next = 3 })
unfolding pick_addr scan check now_ms
finds_none = refl

room : down.next + length down.addrs ≤ u64_mod
room = omega arith

All-down : All (λ b. check b (13 * second) ≡ reject) down.breakers
unfolding check now_ms
All-down = (refl, (refl, (refl, tt)))

is_degraded : breaker_state mixed (13 * second) ≡ half_open
unfolding breaker_state tally snapshot now_ms
is_degraded = refl

one_ne_two : let one : ℕ = 1 in one ≢ 2
one_ne_two e = absurd (omega arith)

-- The last backend is well, and the wrapping scan does not reach it.
abbrev at_the_end : Upstream
at_the_end = pool_of (tripped ∷ tripped ∷ well ∷ []) u64_max

pick_addr_wrapped_example :
    pick_addr at_the_end (13 * second) ≡ done (none, record at_the_end { next = 0 })
pick_addr_wrapped_example =
    pick_addr_wrapped at_the_end (13 * second) (codes "10.0.0.1:80") (codes "10.0.0.2:80")
      (codes "10.0.0.3:80") tripped tripped well refl refl refl All-down.0 All-down.0

abbrev fresh : Upstream
fresh = with_options no_retry addrs default_config (λ i. i * second)

three_fit : length addrs < u64_mod
three_fit = omega arith

-- A pick, and two outcomes of requests that overlap.
busy : Upstream
busy =
    observe_breaker_outcome
      (observe_breaker_outcome (record fresh { next = 1 }) (some 0) false (9 * second)) (some 1)
      true (9 * second)

fresh_pick :
    pick_addr fresh (5 * second) ≡ done (some (codes "10.0.0.1:80", 0), record fresh { next = 1 })
unfolding pick_addr scan check with_options new_breakers Breaker.new
fresh_pick = refl

busy-Reached : Reached fresh busy
unfolding busy
busy-Reached = observed _ _ _ _ (observed _ _ _ _ (picked fresh _ (5 * second) _ built fresh_pick))
