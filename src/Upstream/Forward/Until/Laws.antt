-- ===== src/Upstream/Forward/Until/Laws.antt =====
-- `forward` as a future, against `forward` run to its end.
use ferroxy.Prelude.{
  ℕ, zero, suc, ◌+◌, ◌≡◌, refl, ap, subst, ◌⊎◌, inl, inr, Bool-cases, Option-cases, ◌&&◌, List, [],
  ◌∷◌, Option, none, some, length, ltb, ◌==◌, if◌then◌else◌, arith,
}
use ferroxy.Prelude.Text.{Text}
use ferroxy.Prelude.Checked.{Checked, panic, done, ◌>>=◌}
use ferroxy.Http.{Http}
use ferroxy.Upstream.Retry.{RetryPolicy, RetryDecision, stop, retry, decide_status}
use ferroxy.Upstream.Pool.{Upstream}
use ferroxy.Upstream.Forward.{
  Parts, RequestBody, Request, Reply, answered, broken, Outgoing, Outcome, stopped, gave_up,
  exhausted, attempt_limit, egress_parts, attempts_loop, Chosen, ready, refused, choose, buffered,
  Reported, conclude, send, proceed, forward,
}
use ferroxy.Upstream.Forward.Reach.{chosen_state}
use ferroxy.Upstream.Forward.Until.{
  Progress, waiting, finished, handed_over, loop_until, send_until, collect_until, proceed_until,
  forward_until,
}

-- A future that still waits has the upstream `u`; one that is over gives what the whole run gives.
abbrev pub AsFar : {h : Http} → Upstream → Checked (Progress h) → Checked (Reported h) → Type 0
AsFar u c whole = (c ≡ done (waiting u)) ⊎ (c ≡ (whole >>= λ r. done (finished r)))

decide_status-either :
    (p : RetryPolicy) (status attempt : ℕ)
    → (decide_status p status attempt ≡ retry) ⊎ (decide_status p status attempt ≡ stop)
decide_status-either p status attempt = go (decide_status p status attempt)
  where
    go : (d : RetryDecision) → (d ≡ retry) ⊎ (d ≡ stop)
    go retry = inl refl
    go stop = inr refl

module _ (h : Http) (client : ℕ → Outgoing h → Reply h) (clock : ℕ → ℕ) (p : RetryPolicy)
    (read_timeout : ℕ) (idx : Option ℕ) (u : Upstream) where
  -- What the whole run makes of the end of the loop.
  abbrev ended : ℕ → Checked (Outcome h × List (Outgoing h)) → Checked (Reported h)
  ended attempt c = c >>= λ t. done (conclude h u idx read_timeout (clock (attempt + length t.1)) t)

  sent_before :
      (attempt : ℕ) (out : Outgoing h) (o : Outcome h) (sent : List (Outgoing h))
      → handed_over h out
          (finished (conclude h u idx read_timeout (clock (attempt + 1 + length sent)) (o, sent)))
        ≡ finished
            (conclude h u idx read_timeout (clock (attempt + length (out ∷ sent))) (o, out ∷ sent))
  unfolding conclude
  sent_before attempt out o sent =
      let e : attempt + 1 + length sent ≡ attempt + length (out ∷ sent) = omega arith in rw e (go o)
    where
      go :
          (o : Outcome h)
          → handed_over h out (
              finished
                (conclude h u idx read_timeout (clock (attempt + length (out ∷ sent))) (o, sent)))
            ≡ finished (
                conclude h u idx read_timeout
                  (clock (attempt + length (out ∷ sent)))
                  (o, out ∷ sent))
      go (stopped resp) = refl
      go (gave_up connect) = refl
      go (exhausted last) = refl

  after-AsFar :
      (attempt : ℕ) (out : Outgoing h) (m : Checked (Progress h))
      (c : Checked (Outcome h × List (Outgoing h)))
      → AsFar u m (ended (attempt + 1) c)
      → AsFar u
          (m >>= λ q. done (handed_over h out q))
          (ended attempt (c >>= λ (o, sent). done (o, out ∷ sent)))
  after-AsFar attempt out m c (inl e) = inl (rw e refl)
  after-AsFar attempt out m panic (inr e) = inr (rw e refl)
  after-AsFar attempt out m (done (o, sent)) (inr e) =
      inr (rw e (ap done (sent_before attempt out o sent)))

  step-AsFar :
      (n rounds attempt : ℕ) (out : Outgoing h) (last : ℕ)
      → (let left = if attempt + 1 == attempt_limit p then none else some out in
          (last : ℕ)
          → AsFar u
              (loop_until h client clock p read_timeout idx n rounds (attempt + 1) left last u)
              (ended (attempt + 1) (attempts_loop h client p rounds (attempt + 1) left last)))
      → AsFar u
          (loop_until h client clock p read_timeout idx
            (suc n)
            (suc rounds)
            attempt
            (some out)
            last
            u)
          (ended attempt (attempts_loop h client p (suc rounds) attempt (some out) last))
  unfolding loop_until attempts_loop conclude
  step-AsFar n rounds attempt out last later = go (client attempt out) refl
    where
      go :
          (r : Reply h)
          → client attempt out ≡ r
          → AsFar u
              (loop_until h client clock p read_timeout idx
                (suc n)
                (suc rounds)
                attempt
                (some out)
                last
                u)
              (ended attempt (attempts_loop h client p (suc rounds) attempt (some out) last))
      go (answered resp) c = elim (decide_status-either p resp.status attempt) [
        | inl d ↦ rw (c, d) (after-AsFar attempt out _ _ (later resp.status))
        | inr d ↦ rw (c, d) (inr refl)
      ]
      go (broken connect) c =
          elim (Bool-cases (connect && p.on_connect_error && ltb (attempt + 1) p.attempts)) [
            | inl e ↦ rw (c, e) (after-AsFar attempt out _ _ (later last))
            | inr e ↦ rw (c, e) (inr refl)
          ]

  -- Until it records an outcome, which is its last act, the retry loop leaves the upstream alone.
  loop_until-AsFar :
      (n rounds attempt : ℕ) (iter : Option (Outgoing h)) (last : ℕ)
      → AsFar u
          (loop_until h client clock p read_timeout idx n rounds attempt iter last u)
          (ended attempt (attempts_loop h client p rounds attempt iter last))
  unfolding loop_until attempts_loop conclude
  loop_until-AsFar n zero attempt iter last =
      let e : attempt + 0 ≡ attempt = omega arith in inr (rw e refl)
  loop_until-AsFar zero (suc rounds) attempt none last = inr refl
  loop_until-AsFar zero (suc rounds) attempt (some out) last = inl refl
  loop_until-AsFar (suc n) (suc rounds) attempt none last = inr refl
  loop_until-AsFar (suc n) (suc rounds) attempt (some out) last =
      step-AsFar n rounds attempt out last λ last.
        loop_until-AsFar n rounds (attempt + 1)
          (if attempt + 1 == attempt_limit p then none else some out) last

  ended-zero :
      (c : Checked (Outcome h × List (Outgoing h)))
      → ended 0 c ≡ (c >>= λ t. done (conclude h u idx read_timeout (clock (length t.1)) t))
  ended-zero panic = refl
  ended-zero (done (o, sent)) = let e : 0 + length sent ≡ length sent = omega arith in rw e refl

  send_until-AsFar :
      (n : ℕ) (parts : Parts h) (bytes : Option Text)
      → AsFar u
          (send_until h client clock p read_timeout idx n parts bytes u)
          (send h client clock p read_timeout parts idx u bytes)
  unfolding send_until send
  send_until-AsFar n parts none = inr refl
  send_until-AsFar n parts (some bytes) =
      let iter : Option (Outgoing h) = some (parts, bytes) in
      subst
        (AsFar u (loop_until h client clock p read_timeout idx n (attempt_limit p) 0 iter 500 u))
        (ended-zero (attempts_loop h client p (attempt_limit p) 0 iter 500))
        (loop_until-AsFar n (attempt_limit p) 0 iter 500)

  collect_until-AsFar :
      (n : ℕ) (parts : Parts h) (body : RequestBody)
      → AsFar u
          (collect_until h client clock p read_timeout idx n parts body u)
          (send h client clock p read_timeout parts idx u (buffered h body))
  unfolding collect_until buffered
  collect_until-AsFar n parts body = elim (Option-cases body.exact) [
    | inl e ↦ rw e (waited n)
    | inr (size, e) ↦ elim (Bool-cases (size == 0)) [
      | inl z ↦ rw (e, z) (send_until-AsFar n parts (some []))
      | inr z ↦ rw (e, z) (waited n)
    ]
  ]
    where
      waited :
          (n : ℕ)
          → AsFar u
              (elim n [
                | zero ↦ done (waiting u)
                | suc n ↦ send_until h client clock p read_timeout idx n parts body.collect u
              ])
              (send h client clock p read_timeout parts idx u body.collect)
      waited zero = inl refl
      waited (suc n) = send_until-AsFar n parts body.collect

module _ (h : Http) (client : ℕ → Outgoing h → Reply h) (clock : ℕ → ℕ) (n : ℕ) (u : Upstream)
    (req : Request h) (read_timeout : ℕ) (c : Chosen h)
    (chosen : choose h u (egress_parts h req.parts) (clock 0) ≡ done c) where
  -- Once the backend is chosen, a run of `forward` either still waits, with the upstream as the choice left
  -- it, or is over, with the result of `forward`.
  pub forward_until_lem :
      AsFar
        (chosen_state c)
        (forward_until h client clock n u req read_timeout)
        (forward h client clock u req read_timeout)
  unfolding forward_until forward proceed
  forward_until_lem = rw chosen (go c)
    where
      go :
          (c : Chosen h)
          → AsFar
              (chosen_state c)
              (proceed_until h client clock u.retry read_timeout n req.body c)
              (proceed h client clock u.retry read_timeout req.body c)
      go (refused e u') = inr refl
      go (ready parts idx u') =
          collect_until-AsFar h client clock u.retry read_timeout idx u' n parts req.body
