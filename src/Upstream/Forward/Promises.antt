-- ===== src/Upstream/Forward/Promises.antt =====
-- The promises of `forward` to its callers.
use ferroxy.Prelude.{
  ℕ, suc, ◌+◌, ◌≤◌, ◌<◌, ◌≡◌, refl, sym, ◌≢◌, ◌∙◌, ap, subst, Bool, true, false, not, List, [],
  Option, All, arith, length, replicate, u64_mod, length-replicate,
}
use ferroxy.Prelude.Checked.{done}
use ferroxy.Prelude.Result.{Result, ok, err}
use ferroxy.Http.{Http}
use ferroxy.Upstream.Breaker.{reject, check}
use ferroxy.Upstream.Pool.{Upstream, observe_breaker_outcome}
use ferroxy.Upstream.Pool.Select.{IsValid, pick_addr-none}
use ferroxy.Upstream.Forward.{
  Request, Response, ForwardError, client_error, retries_exhausted, breaker_open, Reply, answered,
  broken, Outgoing, refused, attempt_limit, is_server_error, egress_parts, conclude, forward,
  Reported,
}
use ferroxy.Upstream.Timed.{TimedBody}
use ferroxy.Upstream.Timed
use ferroxy.Upstream.Forward.Attempts.{should_retry, ending}
use ferroxy.Upstream.Forward.Outcomes.{
  Choice, no_backend, bad_uri, Forwarded, turned_away, unread, tried, forward-Forwarded,
}

done-injective : {A : Type 0} {a b : A} → done a ≡ done b → a ≡ b
done-injective e = cc

-- The result that the caller gets from the reply that ends the loop.
unfoldable pub delivered :
    {h : Http} → ℕ → Reply h → Result ForwardError (Response h (TimedBody h.Incoming))
delivered read_timeout (answered resp) = ok (record {
  status = resp.status;
  headers = resp.headers;
  body = Timed.new resp.body read_timeout;
})
delivered read_timeout (broken connect) = err (client_error connect)

-- A reply speaks for its backend if it is no failure and no server error.
unfoldable pub is_healthy : {h : Http} → Reply h → Bool
is_healthy (answered resp) = not (is_server_error resp.status)
is_healthy (broken connect) = false

pub conclude-ending :
    (h : Http) (u : Upstream) (idx : Option ℕ) (read_timeout now : ℕ) (r : Reply h)
    (sent : List (Outgoing h))
    → conclude h u idx read_timeout now (ending r, sent)
      ≡ (delivered read_timeout r, observe_breaker_outcome u idx (is_healthy r) now, sent)
unfolding conclude ending delivered is_healthy
conclude-ending h u idx read_timeout now (answered resp) sent = refl
conclude-ending h u idx read_timeout now (broken connect) sent = refl

module _ (h : Http) (client : ℕ → Outgoing h → Reply h) (clock : ℕ → ℕ) (u : Upstream)
    (req : Request h) (read_timeout : ℕ) where
  abbrev Run : Reported h → Type 0
  Run = Forwarded h client clock u req read_timeout

  -- How a run with the given report went.
  pub Run-of :
      IsValid u → (r : Reported h) → forward h client clock u req read_timeout ≡ done r → Run r
  Run-of v r e =
      let (r', e', f) = forward-Forwarded h client clock u req read_timeout v in
      subst Run (done-injective (sym e' ∙ e)) f

  refusal :
      {e : ForwardError} {u' : Upstream} (status : ℕ)
      → Choice h u (egress_parts h req.parts) (clock 0) (refused e u')
      → e ≢ retries_exhausted status
  refusal status (no_backend u' x p) q = cc
  refusal status (bad_uri a i u' p) q = cc

  reply_not_exhausted :
      (status : ℕ) (r : Reply h) → delivered read_timeout r ≢ err (retries_exhausted status)
  unfolding delivered
  reply_not_exhausted status (answered resp) q = cc
  reply_not_exhausted status (broken connect) q = cc

  open_reply : (r : Reply h) → delivered read_timeout r ≢ err breaker_open
  unfolding delivered
  open_reply (answered resp) q = cc
  open_reply (broken connect) q = cc

  not_exhausted : (status : ℕ) {r : Reported h} → Run r → r.0 ≢ err (retries_exhausted status)
  not_exhausted status (turned_away e u' c) q = refusal status c (cc)
  not_exhausted status (unread parts idx u' c n) q = cc
  not_exhausted status (tried parts idx u' bytes k c s hi fin before) q =
      reply_not_exhausted status (client k (parts, bytes)) (
        sym (
          ap (λ (t : Reported h). t.0)
            (conclude-ending h u' idx read_timeout (clock (suc k)) (client k (parts, bytes))
              (replicate (suc k) (parts, bytes))))
        ∙ q)

  -- On a valid upstream `forward` never ends in `RetriesExhausted`.
  pub forward_not_exhausted :
      (status : ℕ) (r : Reported h)
      → IsValid u
      → forward h client clock u req read_timeout ≡ done r
      → r.0 ≢ err (retries_exhausted status)
  forward_not_exhausted status r v e = not_exhausted status (Run-of v r e)

  Replied : Reported h → Type 0
  Replied r =
      (out : Outgoing h) × (k : ℕ) × (k < attempt_limit u.retry)
      × (r.0 ≡ delivered read_timeout (client k out))
      × (r.2 ≡ replicate (suc k) out)
      × (should_retry u.retry k (client k out) ≡ false)
      × ((j : ℕ) → j < k → should_retry u.retry j (client j out) ≡ true)

  replied : {r : Reported h} → Run r → r.2 ≢ [] → Replied r
  unfolding Replied
  replied (turned_away e u' c) q = absurd (q refl)
  replied (unread parts idx u' c n) q = absurd (q refl)
  replied (tried parts idx u' bytes k c s hi fin before) q =
      let e =
        conclude-ending h u' idx read_timeout (clock (suc k)) (client k (parts, bytes))
          (replicate (suc k) (parts, bytes)) in
      (
        (parts, bytes),
        k,
        hi,
        ap (λ (t : Reported h). t.0) e,
        ap (λ (t : Reported h). t.2) e,
        fin,
        before,
      )

  -- On a valid upstream, once a request has been sent, the caller gets the reply to the first
  -- attempt that the policy does not repeat. The attempts up to that one send one and the same
  -- request, and there are no more of them than the policy allows.
  pub forward_replied :
      (r : Reported h)
      → IsValid u
      → forward h client clock u req read_timeout ≡ done r
      → r.2 ≢ []
      → (out : Outgoing h) × (k : ℕ) × (k < attempt_limit u.retry)
        × (r.0 ≡ delivered read_timeout (client k out))
        × (r.2 ≡ replicate (suc k) out)
        × (should_retry u.retry k (client k out) ≡ false)
        × ((j : ℕ) → j < k → should_retry u.retry j (client j out) ≡ true)
  unfolding Replied
  forward_replied r v e q = replied (Run-of v r e) q

  sends_at_most : {r : Reported h} → Run r → length r.2 ≤ attempt_limit u.retry
  sends_at_most (turned_away e u' c) = omega arith
  sends_at_most (unread parts idx u' c n) = omega arith
  sends_at_most (tried parts idx u' bytes k c s hi fin before) =
      let e =
        conclude-ending h u' idx read_timeout (clock (suc k)) (client k (parts, bytes))
          (replicate (suc k) (parts, bytes)) in
      omega (
        arith,
        ap (λ (t : Reported h). length t.2) e,
        length-replicate {A = Outgoing h} (suc k) (parts, bytes),
      )

  -- On a valid upstream `forward` calls the client at most as often as the policy has attempts, or
  -- at most once if it has none.
  pub forward_sends_at_most :
      (r : Reported h)
      → IsValid u
      → forward h client clock u req read_timeout ≡ done r
      → length r.2 ≤ attempt_limit u.retry
  forward_sends_at_most r v e = sends_at_most (Run-of v r e)

  rejected :
      {r : Reported h}
      → IsValid u
      → u.next + length u.addrs ≤ u64_mod
      → Run r
      → r.0 ≡ err breaker_open
      → (r.2 ≡ []) × All (λ b. check b (clock 0) ≡ reject) u.breakers
  rejected v room (turned_away e _ (no_backend u' x p)) q =
      (refl, pick_addr-none u u' (clock 0) v room p)
  rejected v room (turned_away e _ (bad_uri a i u' p)) q = cc
  rejected v room (unread parts idx u' c n) q = cc
  rejected v room (tried parts idx u' bytes k c s hi fin before) q = absurd (
      open_reply (client k (parts, bytes)) (
        sym (
          ap (λ (t : Reported h). t.0)
            (conclude-ending h u' idx read_timeout (clock (suc k)) (client k (parts, bytes))
              (replicate (suc k) (parts, bytes))))
        ∙ q))

  -- On a valid upstream whose counter does not wrap during the scan, a request that fails with
  -- `BreakerOpen` has not been sent, and the breaker of every backend rejected it.
  pub forward_breaker_open :
      (r : Reported h)
      → IsValid u
      → u.next + length u.addrs ≤ u64_mod
      → forward h client clock u req read_timeout ≡ done r
      → r.0 ≡ err breaker_open
      → (r.2 ≡ []) × All (λ b. check b (clock 0) ≡ reject) u.breakers
  forward_breaker_open r v room e q = rejected v room (Run-of v r e) q
