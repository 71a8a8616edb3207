-- ===== src/Io/Worker/Drain.antt =====
-- The counters of a worker of crates/conduit-io/src/tokio_worker.rs, and the drain loop of `run_worker`.
use ferroxy.Prelude.{
  if◌then◌else◌, ℕ, zero, suc, ◌+◌, ◌%◌, ◌≤◌, ◌<◌, ◌≡◌, refl, ◌↔◌, ◌⊎◌, inl, inr, leb, ◌==◌, Bool,
  List, [], ◌∷◌, some, arith, subst, u64_mod, Bool-cases,
}
use ferroxy.Io.Worker.{
  Worker, Event, flag_read, connected, idle, returned, panicked, cancelled, step, run, steps, drain,
}

-- The counter of accepted connections is that of completed ones and the handlers that still run or
-- have panicked, modulo 2^64.
pub record IsCounted (w : Worker) : Type 0 where
  pub balance : w.accepted ≡ (w.completed + w.running + w.crashed) % u64_mod
  pub accepted_fits : w.accepted < u64_mod
  pub completed_fits : w.completed < u64_mod

step-IsCounted : (w : Worker) (e : Event) → IsCounted w → IsCounted (step w e)
unfolding step
step-IsCounted w connected c = record {
  balance = ground (arith, c.balance, c.accepted_fits, c.completed_fits);
  accepted_fits = ground (arith, c.accepted_fits);
  completed_fits = ground (arith, c.completed_fits);
}
step-IsCounted w flag_read c = record {
  balance = ground (arith, c.balance);
  accepted_fits = ground (arith, c.accepted_fits);
  completed_fits = ground (arith, c.completed_fits);
}
step-IsCounted w idle c = record {
  balance = ground (arith, c.balance);
  accepted_fits = ground (arith, c.accepted_fits);
  completed_fits = ground (arith, c.completed_fits);
}
step-IsCounted w returned c = record {
  balance = ground (arith, c.balance, c.accepted_fits, c.completed_fits);
  accepted_fits = ground (arith, c.accepted_fits);
  completed_fits = ground (arith, c.completed_fits);
}
step-IsCounted w panicked c = record {
  balance = ground (arith, c.balance, c.accepted_fits, c.completed_fits);
  accepted_fits = ground (arith, c.accepted_fits);
  completed_fits = ground (arith, c.completed_fits);
}
step-IsCounted w cancelled c = record {
  balance = c.balance;
  accepted_fits = c.accepted_fits;
  completed_fits = c.completed_fits;
}

pub run-IsCounted : (n : ℕ) (es : List Event) → IsCounted (run n es)
unfolding run
run-IsCounted n [] = record {
  balance = omega arith;
  accepted_fits = omega arith;
  completed_fits = omega arith;
}
run-IsCounted n (e ∷ es) = step-IsCounted (run n es) e (run-IsCounted n es)

pub steps-IsCounted : (w : Worker) (es : List Event) → IsCounted w → IsCounted (steps w es)
unfolding steps
steps-IsCounted w [] c = c
steps-IsCounted w (e ∷ es) c = steps-IsCounted (step w e) es (step-IsCounted w e c)

-- Whatever a worker has been through, its two counters agree exactly if no handler runs and none has
-- panicked, as long as fewer than 2^64 do or have.
pub run-drained :
    (n : ℕ) (es : List Event)
    → (run n es).running + (run n es).crashed < u64_mod
    → ((run n es).accepted ≡ (run n es).completed) ↔ ((run n es).running + (run n es).crashed ≡ 0)
run-drained n es h =
    let c = run-IsCounted n es in
    (
      λ e. omega (arith, c.balance, c.completed_fits, e),
      λ e. omega (arith, c.balance, c.completed_fits, e),
    )

-- The connections that a worker accepts during some events, the oldest of which stands first.
unfoldable pub accepts : Worker → List Event → ℕ
accepts w [] = 0
accepts w (connected ∷ es) =
    let rest = accepts (step w connected) es in if w.waiting == 0 then rest else suc rest
accepts w (e ∷ es) = accepts (step w e) es

-- Once the flag is up, a worker accepts at most one connection more for each of its loops that wait
-- for one at that moment.
pub accepts-flag : (w : Worker) (es : List Event) → w.flag ≡ Bool.true → accepts w es ≤ w.waiting
unfolding accepts step
accepts-flag w [] f = omega arith
accepts-flag w (flag_read ∷ es) f = ground (arith, accepts-flag (step w flag_read) es)
accepts-flag w (connected ∷ es) f = ground (arith, accepts-flag (step w connected) es)
accepts-flag w (idle ∷ es) f = ground (arith, accepts-flag (step w idle) es)
accepts-flag w (returned ∷ es) f = ground (arith, accepts-flag (step w returned) es)
accepts-flag w (panicked ∷ es) f = ground (arith, accepts-flag (step w panicked) es)
accepts-flag w (cancelled ∷ es) f = ground (arith, accepts-flag (step w cancelled) es)

-- The worker after so many sleeps of the drain loop, from the sleep `i` on.
unfoldable pub slept : (ℕ → List Event) → ℕ → Worker → ℕ → Worker
slept during i w zero = w
slept during i w (suc k) = slept during (i + 1) (steps w (during i)) k

-- What lets the drain loop end at a check.
abbrev pub IsOver : (ℕ → ℕ) → ℕ → ℕ → Worker → Type 0
IsOver elapsed deadline i w = (w.accepted ≡ w.completed) ⊎ (deadline ≤ elapsed i)

not_before :
    (during : ℕ → List Event) (elapsed : ℕ → ℕ) (deadline i k : ℕ) (w : Worker)
    → ¬ IsOver elapsed deadline i w
    → ((j : ℕ)
        → j < k
        → ¬ IsOver elapsed deadline (i + 1 + j) (slept during (i + 1) (steps w (during i)) j))
    → (j : ℕ) → j < suc k
    → ¬ IsOver elapsed deadline (i + j) (slept during i w j)
unfolding slept
not_before during elapsed deadline i k w now later zero l =
    subst (λ n. ¬ IsOver elapsed deadline n w) (omega arith) now
not_before during elapsed deadline i k w now later (suc j) l =
    subst (λ n. ¬ IsOver elapsed deadline n (slept during (i + 1) (steps w (during i)) j))
      (omega arith) (later j (omega (arith, l)))

IsOver-at :
    (elapsed : ℕ → ℕ) (deadline : ℕ) (w : Worker) (m n : ℕ)
    → m ≡ n
    → IsOver elapsed deadline m w
    → IsOver elapsed deadline n w
IsOver-at elapsed deadline w m n e = subst (λ n. IsOver elapsed deadline n w) e

-- If the deadline has passed by the check `i + rounds`, one round more is enough for the drain loop to
-- end. It ends at the first check that finds the counters equal or the deadline over, with the worker
-- as it is then, and keeps the balance of the counters.
pub drain_lem :
    (rounds : ℕ) (during : ℕ → List Event) (elapsed : ℕ → ℕ) (deadline i : ℕ) (w : Worker)
    → deadline ≤ elapsed (i + rounds)
    → (k : ℕ) × (k ≤ rounds)
      × (drain (suc rounds) during elapsed deadline i w ≡ some (slept during i w k))
      × IsOver elapsed deadline (i + k) (slept during i w k)
      × ((j : ℕ) → j < k → ¬ IsOver elapsed deadline (i + j) (slept during i w j))
      × (IsCounted w → IsCounted (slept during i w k))
unfolding drain slept
drain_lem zero during elapsed deadline i w h = elim (Bool-cases (w.accepted == w.completed)) [
  | inl e ↦
      (0, omega arith, rw e refl, inl (ground arith), λ j m. absurd (omega (arith, m)), λ c. c)
  | inr e ↦
      let d : leb deadline (elapsed i) ≡ Bool.true =
        let d : deadline ≤ elapsed i = subst (λ n. deadline ≤ elapsed n) (omega arith) h in
        ground arith in
      (0, omega arith, rw (e, d) refl, inr h, λ j m. absurd (omega (arith, m)), λ c. c)
]
drain_lem (suc rounds) during elapsed deadline i w h =
    elim (Bool-cases (w.accepted == w.completed)) [
      | inl e ↦
          (0, omega arith, rw e refl, inl (ground arith), λ j m. absurd (omega (arith, m)), λ c. c)
      | inr e ↦ elim (Bool-cases (leb deadline (elapsed i))) [
        | inl l ↦ (
          0,
          omega arith,
          rw (e, l) refl,
          IsOver-at elapsed deadline w i (i + 0) (omega arith) (inr (ground arith)),
          λ j m. absurd (omega (arith, m)),
          λ c. c,
        )
        | inr l ↦
            let (k, few, r, how, first, keep) =
              drain_lem rounds during elapsed deadline (i + 1) (steps w (during i))
                (subst (λ n. deadline ≤ elapsed n) (omega arith) h) in
            (
              suc k,
              omega (arith, few),
              rw (e, l, r) refl,
              IsOver-at elapsed deadline (slept during (i + 1) (steps w (during i)) k) (i + 1 + k)
                  (i + suc k) (omega arith) how,
              not_before during elapsed deadline i k w (ground arith) first,
              λ c. keep (steps-IsCounted w (during i) c),
            )
      ]
    ]
