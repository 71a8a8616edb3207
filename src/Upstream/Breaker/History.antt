-- ===== src/Upstream/Breaker/History.antt =====
-- What a breaker answers, read off the history of the outcomes recorded since it was built.
use ferroxy.Prelude.{
  ℕ, suc, ◌-◌, ◌%◌, ◌≤◌, ◌<◌, ◌≡◌, refl, List, [], ◌∷◌, Bool, ◌&&◌, arith, ltb, leb, if◌then◌else◌,
  u32_mod, clamp_u64, sat_add_u64, as_millis,
}
use ferroxy.Upstream.Breaker.{
  Breaker, BreakerConfig, allow, reject, new, check, on_success, on_failure, now_ms,
}

-- One call of `on_success`, or of `on_failure` at an instant.
pub data Event : Type 0 where
  succeeded : Event
  failed : ℕ → Event

unfoldable pub record_event : Breaker → Event → Breaker
record_event b succeeded = on_success b
record_event b (failed now) = on_failure b now

-- The newest event stands first.
unfoldable pub run : Breaker → List Event → Breaker
run b [] = b
run b (e ∷ h) = record_event (run b h) e

-- The failures since the last success.
unfoldable pub consecutive : List Event → ℕ
consecutive [] = 0
consecutive (succeeded ∷ h) = 0
consecutive (failed now ∷ h) = suc (consecutive h)

unfoldable pub last_failure : List Event → ℕ
last_failure [] = 0
last_failure (succeeded ∷ h) = last_failure h
last_failure (failed now ∷ h) = now

-- Milliseconds since the breaker was built.
abbrev pub since : ℕ → ℕ → ℕ
since start now = clamp_u64 (as_millis (now - start))

abbrev pub deadline : BreakerConfig → ℕ → ℕ → ℕ
deadline cfg start failure = sat_add_u64 (since start failure) (clamp_u64 (as_millis cfg.cooldown))

-- The promise: reject while the last of at least `threshold` failures in a row is within its
-- cooldown, and at no other time.
unfoldable pub must_reject : BreakerConfig → ℕ → List Event → ℕ → Bool
must_reject cfg start h now =
    ltb 0 cfg.threshold
    && leb cfg.threshold (consecutive h)
    && ltb (since start now) (deadline cfg start (last_failure h))

record Settings (cfg : BreakerConfig) (start : ℕ) (b : Breaker) : Type 0 where
  threshold_eq : b.threshold ≡ cfg.threshold
  cooldown_eq : b.cooldown_ms ≡ clamp_u64 (as_millis cfg.cooldown)
  anchor_eq : b.anchor ≡ start

run-Settings :
    (cfg : BreakerConfig) (start : ℕ) (h : List Event) → Settings cfg start (run (new cfg start) h)
unfolding run new record_event on_success on_failure
run-Settings cfg start [] = record { threshold_eq = refl; cooldown_eq = refl; anchor_eq = refl }
run-Settings cfg start (succeeded ∷ h) =
    let ih = run-Settings cfg start h in
    ground (arith, ih.threshold_eq, ih.cooldown_eq, ih.anchor_eq)
run-Settings cfg start (failed now ∷ h) =
    let ih = run-Settings cfg start h in
    ground (arith, ih.threshold_eq, ih.cooldown_eq, ih.anchor_eq)

-- With a positive threshold, the counter holds the failures in a row at the end of the history,
-- modulo 2^32.
pub failures-run :
    (cfg : BreakerConfig) (start : ℕ) (h : List Event)
    → 0 < cfg.threshold
    → (run (new cfg start) h).failures ≡ consecutive h % u32_mod
unfolding run new record_event on_success on_failure consecutive
failures-run cfg start [] t = refl
failures-run cfg start (succeeded ∷ h) t =
    let s = run-Settings cfg start h in ground (arith, s.threshold_eq)
failures-run cfg start (failed now ∷ h) t =
    let s = run-Settings cfg start h in ground (arith, s.threshold_eq, failures-run cfg start h t)

-- A tripped breaker carries the deadline of its last failure.
open_until-run :
    (cfg : BreakerConfig) (start : ℕ) (h : List Event)
    → 0 < cfg.threshold
    → consecutive h < u32_mod
    → cfg.threshold ≤ consecutive h
    → (run (new cfg start) h).open_until_ms ≡ deadline cfg start (last_failure h)
unfolding run record_event on_failure consecutive last_failure now_ms
open_until-run cfg start [] t u v = absurd (omega arith)
open_until-run cfg start (succeeded ∷ h) t u v = absurd (omega arith)
open_until-run cfg start (failed now ∷ h) t u v =
    let s = run-Settings cfg start h in
    let n = failures-run cfg start h t in
    ground (arith, s.threshold_eq, s.cooldown_eq, s.anchor_eq, n)

-- After any history of outcomes with fewer than 2^32 failures in a row at its end, `check` rejects
-- exactly while the last of at least `threshold` failures in a row, and of at least one, is within
-- its cooldown.
pub check-run :
    (cfg : BreakerConfig) (start : ℕ) (h : List Event) (now : ℕ)
    → consecutive h < u32_mod
    → check (run (new cfg start) h) now ≡ (if must_reject cfg start h now then reject else allow)
unfolding check must_reject now_ms
check-run cfg start h now u =
    let s = run-Settings cfg start h in
    ground
      (arith, s.threshold_eq, s.anchor_eq, failures-run cfg start h, open_until-run cfg start h)

-- Whatever the history, a breaker whose failures in a row are a multiple of 2^32 allows every
-- request.
pub check-run_wrapped :
    (cfg : BreakerConfig) (start : ℕ) (h : List Event) (now : ℕ)
    → consecutive h % u32_mod ≡ 0
    → check (run (new cfg start) h) now ≡ allow
unfolding check
check-run_wrapped cfg start h now w =
    let s = run-Settings cfg start h in ground (arith, s.threshold_eq, failures-run cfg start h)
