-- ===== src/Upstream/Health/Sleep.antt =====
-- The cancellable sleep between two probes.
use ferroxy.Prelude.{
  ℕ, zero, suc, ◌+◌, ◌-◌, ◌*◌, ◌≤◌, ◌<◌, ◌≡◌, ◌≢◌, refl, ◌⊎◌, inl, inr, min, not, ◌&&◌, ◌==◌, Bool,
  true, false, List, [], ◌∷◌, some, All, length, arith, Bool-cases, subst,
}
use ferroxy.Upstream.Health.{nap, sleep_loop}

unfoldable pub total : List ℕ → ℕ
total [] = 0
total (s ∷ sleeps) = s + total sleeps

-- The sleeps are short and were begun before the flag was up, and they add up to the interval
-- unless the flag went up after them.
pub record Slept (cancelled : ℕ → Bool) (i remaining : ℕ) (sleeps : List ℕ) : Type 0 where
  pub short : All (λ s. s ≤ nap) sleeps
  pub live : (j : ℕ) → j < length sleeps → cancelled (i + j) ≡ false
  pub complete :
      (total sleeps ≡ remaining)
      ⊎ ((total sleeps ≤ remaining) × (cancelled (i + length sleeps) ≡ true))

Slept-stop :
    (cancelled : ℕ → Bool) (i remaining : ℕ)
    → (not (cancelled i) && not (remaining == 0)) ≡ false
    → Slept cancelled i remaining []
unfolding total
Slept-stop cancelled i remaining h = record {
  short = tt;
  live = λ j l. elim l [ ];
  complete = ground arith;
}

live-suc :
    (cancelled : ℕ → Bool) (i n : ℕ)
    → cancelled i ≡ false
    → ((j : ℕ) → j < n → cancelled (i + 1 + j) ≡ false)
    → (j : ℕ) → j < suc n
    → cancelled (i + j) ≡ false
live-suc cancelled i n h r zero l = grind arith
live-suc cancelled i n h r (suc j) l =
    subst (λ k. cancelled k ≡ false) (omega arith) (r j (omega arith))

Slept-nap :
    (cancelled : ℕ → Bool) (i remaining : ℕ) (sleeps : List ℕ)
    → cancelled i ≡ false
    → Slept cancelled (i + 1) (remaining - min nap remaining) sleeps
    → Slept cancelled i remaining (min nap remaining ∷ sleeps)
unfolding total
Slept-nap cancelled i remaining sleeps h r = record {
  short = (omega arith, r.short);
  live = live-suc cancelled i (length sleeps) h r.live;
  complete = elim r.complete [
    | inl e ↦ inl (omega arith)
    | inr e ↦ inr (omega (arith, e.0), subst (λ k. cancelled k ≡ true) (omega arith) e.1)
  ];
}

fewer :
    (rounds remaining : ℕ)
    → remaining + nap ≤ suc rounds * nap
    → remaining ≢ 0
    → remaining - min nap remaining + nap ≤ rounds * nap
fewer rounds remaining h n = omega arith

-- With enough rounds the loop ends. Its sleeps are at most 250 ms long, each begins with the flag
-- down, and they sum to the interval or end with the flag up.
pub sleep_loop_lem :
    (rounds : ℕ) (cancelled : ℕ → Bool) (i remaining : ℕ)
    → remaining + nap ≤ rounds * nap
    → (sleeps : List ℕ) × (sleep_loop rounds cancelled i remaining ≡ some sleeps)
      × Slept cancelled i remaining sleeps
unfolding sleep_loop
sleep_loop_lem zero cancelled i remaining enough = absurd (omega arith)
sleep_loop_lem (suc rounds) cancelled i remaining enough =
    elim (Bool-cases (not (cancelled i) && not (remaining == 0))) [
      | inr e ↦ ([], rw e refl, Slept-stop cancelled i remaining e)
      | inl e ↦
          let r =
            sleep_loop_lem rounds cancelled (i + 1) (remaining - min nap remaining)
              (fewer rounds remaining enough (ground arith)) in
          (
            min nap remaining ∷ r.0,
            rw (e, r.1) refl,
            Slept-nap cancelled i remaining r.0 (grind arith) r.2,
          )
    ]
