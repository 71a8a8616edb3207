-- ===== src/Upstream/Health/Laws.antt =====
-- What the probes make of the breaker that they share with the requests.
use ferroxy.Prelude.{
  ℕ, zero, suc, ◌+◌, ◌≤◌, ◌<◌, ◌≡◌, refl, ◌&&◌, List, [], ◌∷◌, true, false, ltb, leb, min,
  if◌then◌else◌, u32_mod, u32_max, arith, ap, ◌∙◌, max, length, ◌-◌, get_elem?, some,
  get_elem?-of_lt, lt-of_get_elem?,
}
use ferroxy.Upstream.Breaker.{Breaker, BreakerConfig, allow, reject, check, on_success, on_failure}
use ferroxy.Upstream.Breaker
use ferroxy.Upstream.Breaker.History.{
  Event, succeeded, failed, record_event, run, consecutive, last_failure, since, deadline,
  must_reject, check-run,
}
use ferroxy.Prelude.Checked.{done, expect}
use ferroxy.Upstream.Pool.{SocketAddr}
use ferroxy.Upstream.Tls.{TlsLibrary}
use ferroxy.Upstream.Health.{
  ProbeConfig, Probe, Step, probed, traffic, start, observe, take_step, run_one, tasks, breaker_of,
}

-- The probes in a row at the end of a run that failed, and that succeeded; requests do not count.
unfoldable pub failed_probes : List Step → ℕ
failed_probes [] = 0
failed_probes (probed true now ∷ h) = 0
failed_probes (probed false now ∷ h) = suc (failed_probes h)
failed_probes (traffic e ∷ h) = failed_probes h

unfoldable pub passed_probes : List Step → ℕ
passed_probes [] = 0
passed_probes (probed true now ∷ h) = suc (passed_probes h)
passed_probes (probed false now ∷ h) = 0
passed_probes (traffic e ∷ h) = passed_probes h

-- The outcomes that the breaker sees: those of all requests, and of the probes from the threshold
-- on.
unfoldable pub seen : ProbeConfig → List Step → List Event
unfolding failed_probes passed_probes
seen cfg [] = []
seen cfg (probed true now ∷ h) =
    if leb cfg.healthy_threshold (suc (passed_probes h)) then succeeded ∷ seen cfg h else seen cfg h
seen cfg (probed false now ∷ h) =
    if leb cfg.unhealthy_threshold (suc (failed_probes h))
    then failed now ∷ seen cfg h
    else seen cfg h
seen cfg (traffic e ∷ h) = e ∷ seen cfg h

pub consecutive_fail-run_one :
    (cfg : ProbeConfig) (b : Breaker) (h : List Step)
    → (run_one cfg (start b) h).consecutive_fail ≡ min (failed_probes h) u32_max
unfolding run_one take_step observe failed_probes
consecutive_fail-run_one cfg b [] = refl
consecutive_fail-run_one cfg b (probed true now ∷ h) = refl
consecutive_fail-run_one cfg b (probed false now ∷ h) =
    ground (arith, consecutive_fail-run_one cfg b h)
consecutive_fail-run_one cfg b (traffic e ∷ h) = consecutive_fail-run_one cfg b h

pub consecutive_ok-run_one :
    (cfg : ProbeConfig) (b : Breaker) (h : List Step)
    → (run_one cfg (start b) h).consecutive_ok ≡ min (passed_probes h) u32_max
unfolding run_one take_step observe passed_probes
consecutive_ok-run_one cfg b [] = refl
consecutive_ok-run_one cfg b (probed true now ∷ h) = ground (arith, consecutive_ok-run_one cfg b h)
consecutive_ok-run_one cfg b (probed false now ∷ h) = refl
consecutive_ok-run_one cfg b (traffic e ∷ h) = consecutive_ok-run_one cfg b h

-- With thresholds that fit 32 bits, and whatever requests do meanwhile, the breaker is in the state
-- that the outcomes of all requests, and of the probes from the threshold-th in a row on, lead to.
pub breaker-run_one :
    (cfg : ProbeConfig) (b : Breaker) (h : List Step)
    → cfg.unhealthy_threshold < u32_mod
    → cfg.healthy_threshold < u32_mod
    → (run_one cfg (start b) h).breaker ≡ run b (seen cfg h)
unfolding run_one take_step observe seen run record_event
breaker-run_one cfg b [] hu hh = refl
breaker-run_one cfg b (probed true now ∷ h) hu hh =
    let ih = breaker-run_one cfg b h hu hh in ground (arith, ih, consecutive_ok-run_one cfg b h)
breaker-run_one cfg b (probed false now ∷ h) hu hh =
    let ih = breaker-run_one cfg b h hu hh in ground (arith, ih, consecutive_fail-run_one cfg b h)
breaker-run_one cfg b (traffic e ∷ h) hu hh =
    ap (λ c. record_event c e) (breaker-run_one cfg b h hu hh)

-- A run of probes that all fail, at the given instants.
unfoldable pub failing : List ℕ → List Step
failing [] = []
failing (now ∷ ts) = probed false now ∷ failing ts

failed_probes-failing : (ts : List ℕ) → failed_probes (failing ts) ≡ length ts
unfolding failed_probes failing
failed_probes-failing [] = refl
failed_probes-failing (now ∷ ts) = ap suc (failed_probes-failing ts)

consecutive-seen :
    (cfg : ProbeConfig) (ts : List ℕ)
    → consecutive (seen cfg (failing ts)) ≡ length ts + 1 - max cfg.unhealthy_threshold 1
unfolding seen failing consecutive
consecutive-seen cfg [] = omega arith
consecutive-seen cfg (now ∷ ts) = ground (arith, failed_probes-failing ts, consecutive-seen cfg ts)

last_failure-seen :
    (cfg : ProbeConfig) (now : ℕ) (ts : List ℕ)
    → cfg.unhealthy_threshold ≤ length ts + 1
    → last_failure (seen cfg (failing (now ∷ ts))) ≡ now
unfolding seen failing last_failure
last_failure-seen cfg now ts h = ground (arith, failed_probes-failing ts)

-- Fewer than 2^32 failing probes open a new breaker that no request uses exactly if there are at
-- least the unhealthy threshold and the breaker's own threshold, less one, of them; both count from
-- one, and the breaker rejects until its cooldown after the last probe is over.
pub check-failing :
    (cfg : ProbeConfig) (bcfg : BreakerConfig) (built t : ℕ) (ts : List ℕ) (now : ℕ)
    → cfg.unhealthy_threshold < u32_mod
    → cfg.healthy_threshold < u32_mod
    → length (t ∷ ts) < u32_mod
    → check (run_one cfg (start (Breaker.new bcfg built)) (failing (t ∷ ts))).breaker now ≡ (
        if ltb 0 bcfg.threshold
          && leb (max cfg.unhealthy_threshold 1 + bcfg.threshold) (length (t ∷ ts) + 1)
          && ltb (since built now) (deadline bcfg built t)
        then reject
        else allow)
unfolding must_reject
check-failing cfg bcfg built t ts now hu hh few =
    let n = consecutive-seen cfg (t ∷ ts) in
    rw
      (
        breaker-run_one cfg (Breaker.new bcfg built) (failing (t ∷ ts)) hu hh,
        check-run bcfg built (seen cfg (failing (t ∷ ts))) now (omega (arith, n)),
      )
      (ground (arith, n, last_failure-seen cfg t ts))

tasks-from :
    {l : TlsLibrary} (p : Probe l) (addrs : List SocketAddr) (k i : ℕ) (a : SocketAddr)
    → get_elem? addrs i ≡ some a
    → k + length addrs ≤ length p.breakers
    → get_elem? (tasks p k addrs) i ≡ some (k + i, a)
unfolding tasks
tasks-from p [] k i a e h = cc
tasks-from p (x ∷ addrs) k zero a e h = ground arith
tasks-from p (x ∷ addrs) k (suc i) a e h = grind (arith, tasks-from p addrs (k + 1) i a e)

-- If there is a breaker for each address, then each address has its task, and the task starts with
-- the breaker at the same index.
pub breaker_of-tasks :
    {l : TlsLibrary} (p : Probe l) (i : ℕ) (a : SocketAddr)
    → length p.breakers ≡ length p.addrs
    → get_elem? p.addrs i ≡ some a
    → (b : Breaker) × (get_elem? p.breakers i ≡ some b)
      × (get_elem? (tasks p 0 p.addrs) i ≡ some (i, a))
      × (breaker_of p (i, a) ≡ done b)
unfolding breaker_of
breaker_of-tasks p i a par e =
    let h = get_elem?-of_lt p.breakers i (omega (arith, lt-of_get_elem? p.addrs i e)) in
    let t = tasks-from p p.addrs 0 i a e (omega arith) in
    (h.0, h.1, t ∙ ap (λ k. some (k, a)) (omega arith), ap expect h.1)
