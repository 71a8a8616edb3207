-- ===== src/Upstream/Retry.antt =====
-- crates/conduit-upstream/src/retry.rs.
mod Tests
use ferroxy.Prelude.{ℕ, ◌+◌, Bool, false, not, List, [], any, ◌==◌, leb, if◌then◌else◌}

pub data RetryDecision : Type 0 where
  stop retry : RetryDecision

pub record RetryPolicy : Type 0 where
  pub attempts : ℕ
  pub on_status : List ℕ
  pub on_connect_error : Bool

-- `RetryPolicy::none`, which is `Default::default`.
abbrev pub no_retry : RetryPolicy
no_retry = record { attempts = 0; on_status = []; on_connect_error = false }

-- `attempt + 1` does not wrap: an attempt is below `attempts`, a `u32`.
unfoldable pub decide_status : RetryPolicy → ℕ → ℕ → RetryDecision
decide_status p status attempt =
    if not (any (λ s. s == status) p.on_status)
    then stop
    else if leb p.attempts (attempt + 1)
    then stop
    else retry
