-- ===== src/Upstream/Forward/Until.antt =====
-- `Upstream::forward` of crates/conduit-upstream/src/lib.rs as a future that may be dropped. It waits for the body of
-- the request, unless that is known to be empty, and then for the reply to each attempt; `n` counts the waits
-- that are over when it is dropped. The state of the upstream goes through the code as it stands there.
pub mod Laws
use ferroxy.Prelude.{
  ℕ, zero, suc, ◌+◌, ◌≡◌, refl, ◌⊎◌, inl, inr, Bool, Bool-cases, false, true, not, ◌&&◌, List, [],
  ◌∷◌, Option, none, some, length, ltb, ◌==◌, if◌then◌else◌, arith,
}
use ferroxy.Prelude.Text.{Text}
use ferroxy.Prelude.Checked.{Checked, panic, done, expect, ◌>>=◌}
use ferroxy.Prelude.Result.{ok, err}
use ferroxy.Http.{Http}
use ferroxy.Upstream.Retry.{RetryPolicy, stop, retry, decide_status}
use ferroxy.Upstream.Pool.{Upstream, observe_breaker_outcome}
use ferroxy.Upstream.Timed
use ferroxy.Upstream.Forward.{
  Parts, RequestBody, Request, Reply, answered, broken, Outgoing, client_error, body_error,
  retries_exhausted, Outcome, stopped, gave_up, exhausted, attempt_limit, is_server_error,
  egress_parts, attempts_loop, Chosen, ready, refused, choose, buffered, Reported, conclude, send,
  proceed, forward,
}

-- The future still waits, with the upstream as it is then, or is over.
pub data Progress (h : Http) : Type 0 where
  waiting : Upstream → Progress h
  finished : Reported h → Progress h

module _ (h : Http) where
  abbrev pub handed_over : Outgoing h → Progress h → Progress h
  handed_over out (waiting u) = waiting u
  handed_over out (finished (result, u, sent)) = finished (result, u, out ∷ sent)

  module _ (client : ℕ → Outgoing h → Reply h) (clock : ℕ → ℕ) (p : RetryPolicy) (read_timeout : ℕ)
      (idx : Option ℕ) where
    -- The retry loop, which records an outcome before each of its returns.
    unfoldable pub loop_until :
        ℕ → ℕ → ℕ → Option (Outgoing h) → ℕ → Upstream → Checked (Progress h)
    loop_until n zero attempt iter last_status u = done (
        finished (
          err (retries_exhausted last_status),
          observe_breaker_outcome u idx false (clock attempt),
          [],
        ))
    loop_until zero (suc rounds) attempt iter last_status u = do out ← expect iter; done (waiting u)
    loop_until (suc n) (suc rounds) attempt iter last_status u =
        let left : Option (Outgoing h) = if attempt + 1 == attempt_limit p then none else iter in
        do
          out ← expect iter
          progress ← elim (client attempt out) [
            | answered resp ↦ elim (decide_status p resp.status attempt) [
              | stop ↦ done (
                  finished (
                    ok (record {
                      status = resp.status;
                      headers = resp.headers;
                      body = Timed.new resp.body read_timeout;
                    }),
                    observe_breaker_outcome u idx (not (is_server_error resp.status))
                        (clock (attempt + 1)),
                    [],
                  ))
              | retry ↦ loop_until n rounds (attempt + 1) left resp.status u
            ]
            | broken connect ↦
                let again = loop_until n rounds (attempt + 1) left last_status u in
                if connect && p.on_connect_error && ltb (attempt + 1) p.attempts
                then again
                else done (
                    finished (
                      err (client_error connect),
                      observe_breaker_outcome u idx false (clock (attempt + 1)),
                      [],
                    ))
          ]
          done (handed_over out progress)

    -- The loop with the collected body, if collecting it did not fail.
    unfoldable pub send_until : ℕ → Parts h → Option Text → Upstream → Checked (Progress h)
    unfolding loop_until
    send_until n parts none u = done (finished (err body_error, u, []))
    send_until n parts (some bytes) u = loop_until n (attempt_limit p) 0 (some (parts, bytes)) 500 u

    -- A body that is known to be empty takes no wait.
    unfoldable pub collect_until : ℕ → Parts h → RequestBody → Upstream → Checked (Progress h)
    unfolding send_until
    collect_until n parts body u = elim body.exact [
      | some size ↦
          if size == 0
          then send_until n parts (some []) u
          else elim n [ zero ↦ done (waiting u) | suc n ↦ send_until n parts body.collect u ]
      | none ↦ elim n [ zero ↦ done (waiting u) | suc n ↦ send_until n parts body.collect u ]
    ]

  module _ (client : ℕ → Outgoing h → Reply h) (clock : ℕ → ℕ) (p : RetryPolicy) (read_timeout : ℕ)
      (n : ℕ) (body : RequestBody) where
    -- A refusal comes before any wait.
    abbrev pub proceed_until : Chosen h → Checked (Progress h)
    proceed_until (refused e u) = done (finished (err e, u, []))
    proceed_until (ready parts idx u) = collect_until client clock p read_timeout idx n parts body u

  unfoldable pub forward_until :
      (ℕ → Outgoing h → Reply h) → (ℕ → ℕ) → ℕ → Upstream → Request h → ℕ → Checked (Progress h)
  unfolding collect_until
  forward_until client clock n u req read_timeout = do
    chosen ← choose h u (egress_parts h req.parts) (clock 0)
    proceed_until client clock u.retry read_timeout n req.body chosen
