-- ===== src/Upstream/Breaker/States.antt =====
-- The three states that a snapshot reports, and how the outcome of a request moves between them.
use ferroxy.Prelude.{ℕ, ◌+◌, ◌<◌, ◌≡◌, ◌↔◌, arith, ltb, if◌then◌else◌, u32_mod, sat_add_u64}
use ferroxy.Upstream.Breaker.{
  Breaker, reject, closed, open_, half_open, check, snapshot, on_success, on_failure, now_ms,
}

-- A request is rejected exactly in the open state.
pub check-snapshot : (b : Breaker) (now : ℕ) → (check b now ≡ reject) ↔ (snapshot b now ≡ open_)
unfolding check snapshot
check-snapshot b now = ground arith

-- A success closes the breaker from every state.
pub snapshot-on_success : (b : Breaker) (later : ℕ) → snapshot (on_success b) later ≡ closed
unfolding snapshot on_success
snapshot-on_success b later = ground arith

-- With a positive threshold and a counter below its largest value, a failure below the threshold
-- leaves the breaker closed; the failure that reaches the threshold, and every later one, opens it
-- until a full cooldown has passed, after which it is half open.
pub snapshot-on_failure :
    (b : Breaker) (now later : ℕ)
    → 0 < b.threshold
    → b.failures + 1 < u32_mod
    → snapshot (on_failure b now) later ≡ (
        if ltb (b.failures + 1) b.threshold
        then closed
        else if ltb (now_ms b later) (sat_add_u64 (now_ms b now) b.cooldown_ms)
        then open_
        else half_open)
unfolding snapshot on_failure now_ms
snapshot-on_failure b now later t u = ground arith
