-- ===== src/Upstream/Breaker.antt =====
-- crates/conduit-upstream/src/breaker.rs. Each method is one step on the breaker's state; the clock is an
-- argument, an instant in nanoseconds, and `Instant::elapsed` stops at zero as `-` does.
pub mod History
pub mod States
mod Tests
use ferroxy.Prelude.{
  ℕ, ◌+◌, ◌-◌, ◌%◌, ◌||◌, ltb, leb, ◌==◌, if◌then◌else◌, u32_mod, clamp_u64, sat_add_u32,
  sat_add_u64, as_millis, from_secs,
}

pub data Decision : Type 0 where
  allow reject : Decision

pub data BreakerState : Type 0 where
  closed open_ half_open : BreakerState

pub record BreakerConfig : Type 0 where
  pub threshold : ℕ
  pub cooldown : ℕ

pub record Breaker : Type 0 where
  pub threshold : ℕ
  pub cooldown_ms : ℕ
  pub anchor : ℕ
  pub failures : ℕ
  pub open_until_ms : ℕ

abbrev pub default_config : BreakerConfig
default_config = record { threshold = 5; cooldown = from_secs 30 }

unfoldable pub new : BreakerConfig → ℕ → Breaker
new cfg now = record {
  threshold = cfg.threshold;
  cooldown_ms = clamp_u64 (as_millis cfg.cooldown);
  anchor = now;
  failures = 0;
  open_until_ms = 0;
}

unfoldable pub now_ms : Breaker → ℕ → ℕ
now_ms b now = clamp_u64 (as_millis (now - b.anchor))

unfoldable pub check : Breaker → ℕ → Decision
check b now =
    if b.threshold == 0
    then allow
    else if ltb b.failures b.threshold
    then allow
    else if b.open_until_ms == 0 || leb b.open_until_ms (now_ms b now)
    then allow
    else reject

unfoldable pub snapshot : Breaker → ℕ → BreakerState
snapshot b now =
    if b.threshold == 0 || ltb b.failures b.threshold
    then closed
    else if b.open_until_ms == 0 || leb b.open_until_ms (now_ms b now)
    then half_open
    else open_

unfoldable pub on_success : Breaker → Breaker
on_success b = if b.threshold == 0 then b else record b { failures = 0; open_until_ms = 0 }

-- `fetch_add` wraps, and the value that is compared saturates.
unfoldable pub on_failure : Breaker → ℕ → Breaker
on_failure b now =
    if b.threshold == 0
    then b
    else let counted : Breaker = record b { failures = (b.failures + 1) % u32_mod } in
      let crossed = sat_add_u32 b.failures 1 in
      let until = sat_add_u64 (now_ms b now) b.cooldown_ms in
      if crossed == b.threshold
      then record counted { open_until_ms = until }
      else if ltb b.threshold crossed
      then record counted { open_until_ms = until }
      else counted
