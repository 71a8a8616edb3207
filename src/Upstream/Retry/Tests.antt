-- ===== src/Upstream/Retry/Tests.antt =====
-- The unit tests of crates/conduit-upstream/src/retry.rs, run in the model.
use ferroxy.Prelude.{◌≡◌, refl, true, [], ◌∷◌}
use ferroxy.Upstream.Retry.{RetryPolicy, decide_status, no_retry, retry, stop}

abbrev policy_502_2x : RetryPolicy
policy_502_2x = record { attempts = 3; on_status = 502 ∷ 503 ∷ []; on_connect_error = true }

final_status_stops : decide_status policy_502_2x 200 0 ≡ stop
unfolding decide_status
final_status_stops = refl

retryable_status_retries_when_attempts_available : decide_status policy_502_2x 503 1 ≡ retry
unfolding decide_status
retryable_status_retries_when_attempts_available = refl

retryable_status_stops_when_no_attempts_left : decide_status policy_502_2x 502 2 ≡ stop
unfolding decide_status
retryable_status_stops_when_no_attempts_left = refl

no_retry_policy_never_retries : decide_status no_retry 503 0 ≡ stop
unfolding decide_status
no_retry_policy_never_retries = refl
