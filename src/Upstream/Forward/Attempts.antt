-- ===== src/Upstream/Forward/Attempts.antt =====
-- The retry loop: which reply it ends with, and what it sends.
use native.Mathlib.Decide.{dec_lt}
use ferroxy.Prelude.{
  ℕ, zero, suc, ◌+◌, ◌-◌, ◌≤◌, ◌<◌, ◌≡◌, refl, subst, ◌⊎◌, inl, inr, Bool, true, false, ◌&&◌,
  Bool-cases, List, some, any, arith, ltb, ltb→lt, ◌∷◌, ◌==◌, replicate,
}
use ferroxy.Prelude.Checked.{Checked, done}
use ferroxy.Http.{Http}
use ferroxy.Upstream.Retry.{RetryPolicy, stop, retry, decide_status}
use ferroxy.Upstream.Forward.{
  Outgoing, Reply, answered, broken, Outcome, stopped, gave_up, attempt_limit, attempts_loop,
}

-- The policy as the documentation states it: another attempt is made after a reply with a listed
-- status, or after a failure to connect if the policy says so, as long as attempts are left.
unfoldable pub should_retry : {h : Http} → RetryPolicy → ℕ → Reply h → Bool
should_retry p attempt (answered resp) =
    any (λ s. s == resp.status) p.on_status && ltb (attempt + 1) p.attempts
should_retry p attempt (broken connect) =
    connect && p.on_connect_error && ltb (attempt + 1) p.attempts

unfoldable pub ending : {h : Http} → Reply h → Outcome h
ending (answered resp) = stopped resp
ending (broken connect) = gave_up connect

-- `decide_status` asks for another attempt exactly as documented.
decide_status-cases :
    (p : RetryPolicy) (status attempt : ℕ)
    → ((decide_status p status attempt ≡ retry)
        × ((any (λ s. s == status) p.on_status && ltb (attempt + 1) p.attempts) ≡ true))
      ⊎ ((decide_status p status attempt ≡ stop)
          × ((any (λ s. s == status) p.on_status && ltb (attempt + 1) p.attempts) ≡ false))
unfolding decide_status
decide_status-cases p status attempt = elim (Bool-cases (any (λ s. s == status) p.on_status)) [
  | inl e ↦ rw e (ground arith)
  | inr e ↦ rw e (inr (refl, refl))
]

and_right : (a b : Bool) → (a && b) ≡ true → b ≡ true
and_right true b e = e
and_right false b e = cc

retry_room :
    {h : Http} (p : RetryPolicy) (attempt : ℕ) (r : Reply h)
    → should_retry p attempt r ≡ true
    → attempt + 1 < p.attempts
unfolding should_retry
retry_room p attempt (answered resp) e =
    ltb→lt _ _ (and_right (any (λ s. s == resp.status) p.on_status) _ e)
retry_room p attempt (broken connect) e = ltb→lt _ _ (and_right (connect && p.on_connect_error) _ e)

earlier : (P : ℕ → Type 0) (lo k : ℕ) → P lo → (lo + 1 ≤ k → P k) → lo ≤ k → P k
earlier P lo k here later h = elim (dec_lt lo k) [
  | yes p ↦ later (omega arith)
  | no p ↦ subst P (omega arith) here
]

resize :
    {A B : Type 0} {c : Checked (A × List B)} {a : A} (b : B) (m n : ℕ)
    → m ≡ n
    → c ≡ done (a, replicate m b)
    → c ≡ done (a, replicate n b)
resize b m n e = rw e (λ q. q)

module _ (h : Http) (client : ℕ → Outgoing h → Reply h) (p : RetryPolicy) where
  loop-stop :
      (rounds attempt last : ℕ) (out : Outgoing h)
      → should_retry p attempt (client attempt out) ≡ false
      → attempts_loop h client p (suc rounds) attempt (some out) last
        ≡ done (ending (client attempt out), replicate 1 out)
  unfolding attempts_loop should_retry ending
  loop-stop rounds attempt last out e = go (client attempt out) refl e
    where
      go :
          (r : Reply h)
          → client attempt out ≡ r
          → should_retry p attempt r ≡ false
          → attempts_loop h client p (suc rounds) attempt (some out) last
            ≡ done (ending r, replicate 1 out)
      go (answered resp) c e = elim (decide_status-cases p resp.status attempt) [
        | inl (d, e') ↦ cc
        | inr (d, e') ↦ rw (c, d) refl
      ]
      go (broken connect) c e = rw (c, e) refl

  -- Another attempt is made only below the limit, so the last one still has the request.
  loop-retry :
      (rounds attempt last : ℕ) (out : Outgoing h) (e : Outcome h) (sent : List (Outgoing h))
      → should_retry p attempt (client attempt out) ≡ true
      → ((last' : ℕ)
          → attempts_loop h client p rounds (attempt + 1) (some out) last' ≡ done (e, sent))
      → attempts_loop h client p (suc rounds) attempt (some out) last ≡ done (e, out ∷ sent)
  unfolding attempts_loop should_retry
  loop-retry rounds attempt last out e sent w next = go (client attempt out) refl w
    where
      ne_limit : ltb (attempt + 1) p.attempts ≡ true → (attempt + 1 == attempt_limit p) ≡ false
      ne_limit room = ground arith

      go :
          (r : Reply h)
          → client attempt out ≡ r
          → should_retry p attempt r ≡ true
          → attempts_loop h client p (suc rounds) attempt (some out) last ≡ done (e, out ∷ sent)
      go (answered resp) c w = elim (decide_status-cases p resp.status attempt) [
        | inl (d, e') ↦
            rw
              (
                c,
                d,
                ne_limit (
                    and_right (any (λ s. s == resp.status) p.on_status)
                      (ltb (attempt + 1) p.attempts) e'),
                next resp.status,
              )
              refl
        | inr (d, e') ↦ cc
      ]
      go (broken connect) c w =
          rw
            (
              c,
              w,
              ne_limit (and_right (connect && p.on_connect_error) (ltb (attempt + 1) p.attempts) w),
              next last,
            )
            refl

  -- Started at `attempt` with all rounds left, the loop ends with the reply of the first attempt `k`
  -- that is not to be retried, and sends the same request each time.
  loop_lem :
      (rounds attempt : ℕ) (out : Outgoing h)
      → 0 < rounds
      → attempt + rounds ≡ attempt_limit p
      → (k : ℕ) × (attempt ≤ k)
        × (k < attempt_limit p)
        × ((last : ℕ)
            → attempts_loop h client p rounds attempt (some out) last
              ≡ done (ending (client k out), replicate (suc k - attempt) out))
        × (should_retry p k (client k out) ≡ false)
        × ((j : ℕ) → attempt ≤ j → j < k → should_retry p j (client j out) ≡ true)
  loop_lem zero attempt out pos all = absurd (omega arith)
  loop_lem (suc rounds) attempt out pos all =
      elim (Bool-cases (should_retry p attempt (client attempt out))) [
        | inl more ↦
            let room : attempt + 1 < p.attempts = retry_room p attempt (client attempt out) more in
            let (k, lo, hi, e, fin, before) =
              loop_lem rounds (attempt + 1) out (omega arith) (omega arith) in
            (
              k,
              omega arith,
              hi,
              (λ last. resize out (suc (suc k - (attempt + 1))) (suc k - attempt) (omega arith) (
                  loop-retry rounds attempt last out (ending (client k out))
                    (replicate (suc k - (attempt + 1)) out) more e)),
              fin,
              (λ j p' q'.
                  earlier (λ i. should_retry p i (client i out) ≡ true) attempt j more
                    (λ m. before j m q') p'),
            )
        | inr last_one ↦ (
          attempt,
          omega arith,
          omega arith,
          (λ last.
              resize out 1 (suc attempt - attempt) (omega arith)
                (loop-stop rounds attempt last out last_one)),
          last_one,
          (λ j p' q'. absurd (omega arith)),
        )
      ]

-- With the whole request and all attempts ahead, the loop does not panic. It ends with the reply to
-- the first attempt that the policy does not repeat, which is below the limit, and has by then sent
-- the same request once for each attempt up to that one.
pub attempts_loop_lem :
    (h : Http) (client : ℕ → Outgoing h → Reply h) (p : RetryPolicy) (out : Outgoing h) (last : ℕ)
    → (k : ℕ) × (k < attempt_limit p)
      × (attempts_loop h client p (attempt_limit p) 0 (some out) last
          ≡ done (ending (client k out), replicate (suc k) out))
      × (should_retry p k (client k out) ≡ false)
      × ((j : ℕ) → j < k → should_retry p j (client j out) ≡ true)
attempts_loop_lem h client p out last =
    let (k, lo, hi, e, fin, before) =
      loop_lem h client p (attempt_limit p) 0 out (omega arith) (omega arith) in
    (
      k,
      hi,
      resize out (suc k - 0) (suc k) (omega arith) (e last),
      fin,
      (λ j q. before j (omega arith) q),
    )
