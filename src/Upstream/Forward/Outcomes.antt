-- ===== src/Upstream/Forward/Outcomes.antt =====
-- What `forward` returns, what it sends and what it records.
use ferroxy.Prelude.{
  ℕ, suc, ◌<◌, ◌≡◌, refl, ap, inl, inr, true, false, Bool-cases, Option-cases, [], Option, none,
  some, arith, length, get_elem?, get_elem?-of_lt, lt-of_get_elem?, is_empty, replicate,
  length-replicate,
}
use ferroxy.Prelude.Text.{Text}
use ferroxy.Prelude.Checked.{done}
use ferroxy.Prelude.Result.{err}
use ferroxy.Http.{Http}
use ferroxy.Upstream.Pool.{Upstream, SocketAddr, pick_addr}
use ferroxy.Upstream.Pool.Select.{IsValid, pick_addr_total, pick_addr_sound}
use ferroxy.Upstream.Forward.{
  Parts, Request, ForwardError, body_error, breaker_open, Reply, Outgoing, Outcome, Chosen, ready,
  refused, attempt_limit, rewrite_uri, egress_parts, attempts_loop, choose, buffered, conclude,
  forward, Reported,
}
use ferroxy.Upstream.Forward.Attempts.{should_retry, ending, attempts_loop_lem}

module _ (h : Http) (u : Upstream) (parts : Parts h) (now : ℕ) where
  -- How a choice comes about.
  pub data Choice : Chosen h → Type 0 where
    direct : is_empty u.addrs ≡ true → Choice (ready parts none u)
    no_backend :
        (u' : Upstream)
        → is_empty u.addrs ≡ false
        → pick_addr u now ≡ done (none, u')
        → Choice (refused breaker_open u')
    bad_uri :
        (a : SocketAddr) (i : ℕ) (u' : Upstream)
        → pick_addr u now ≡ done (some (a, i), u')
        → Choice (refused body_error u')
    backend :
        (a : SocketAddr) (i : ℕ) (authority : Text) (uri : h.Uri) (u' : Upstream)
        → pick_addr u now ≡ done (some (a, i), u')
        → get_elem? u'.authorities i ≡ some authority
        → rewrite_uri h parts.uri authority ≡ some uri
        → Choice (ready (record parts { uri = uri }) (some i) u')

  choose_direct : is_empty u.addrs ≡ true → choose h u parts now ≡ done (ready parts none u)
  unfolding choose
  choose_direct e = rw e refl

  choose-none :
      (u' : Upstream)
      → is_empty u.addrs ≡ false
      → pick_addr u now ≡ done (none, u')
      → choose h u parts now ≡ done (refused breaker_open u')
  unfolding choose
  choose-none u' e p = rw (e, p) refl

  choose_bad :
      (a : SocketAddr) (i : ℕ) (authority : Text) (u' : Upstream)
      → is_empty u.addrs ≡ false
      → pick_addr u now ≡ done (some (a, i), u')
      → get_elem? u'.authorities i ≡ some authority
      → rewrite_uri h parts.uri authority ≡ none
      → choose h u parts now ≡ done (refused body_error u')
  unfolding choose
  choose_bad a i authority u' e p q r = rw (e, p) (rw (q, r) refl)

  choose_backend :
      (a : SocketAddr) (i : ℕ) (authority : Text) (uri : h.Uri) (u' : Upstream)
      → is_empty u.addrs ≡ false
      → pick_addr u now ≡ done (some (a, i), u')
      → get_elem? u'.authorities i ≡ some authority
      → rewrite_uri h parts.uri authority ≡ some uri
      → choose h u parts now ≡ done (ready (record parts { uri = uri }) (some i) u')
  unfolding choose
  choose_backend a i authority uri u' e p q r = rw (e, p) (rw (q, r) refl)

  pub choose-Choice : IsValid u → (c : Chosen h) × (choose h u parts now ≡ done c) × Choice c
  choose-Choice v = elim (Bool-cases (is_empty u.addrs)) [
    | inl e ↦ (ready parts none u, choose_direct e, direct e)
    | inr e ↦ let (r, u', p, same, v') = pick_addr_total u now v in picked e r u' p v' same
  ]
    where
      picked :
          is_empty u.addrs ≡ false
          → (r : Option (SocketAddr × ℕ)) (u' : Upstream) → pick_addr u now ≡ done (r, u')
          → IsValid u'
          → u' ≡ record u { next = u'.next }
          → (c : Chosen h) × (choose h u parts now ≡ done c) × Choice c
      picked e none u' p v' same = (refused breaker_open u', choose-none u' e p, no_backend u' e p)
      picked e (some (a, i)) u' p v' same =
          let (b, ea, eb, allowed) = pick_addr_sound u u' now i a v p in
          let small : i < length u.addrs = lt-of_get_elem? u.addrs i ea in
          let lens : length u'.addrs ≡ length u.addrs =
            ap (λ (t : Upstream). length t.addrs) same in
          let (authority, q) =
            get_elem?-of_lt u'.authorities i (omega (arith, v'.authorities_parallel)) in
          elim (Option-cases (rewrite_uri h parts.uri authority)) [
            | inl r ↦ (refused body_error u', choose_bad a i authority u' e p q r, bad_uri a i u' p)
            | inr (uri, r) ↦ (
              ready (record parts { uri = uri }) (some i) u',
              choose_backend a i authority uri u' e p q r,
              backend a i authority uri u' p q r,
            )
          ]

module _ (h : Http) (client : ℕ → Outgoing h → Reply h) (clock : ℕ → ℕ) (u : Upstream)
    (req : Request h) (read_timeout : ℕ) where
  -- How a run of `forward` goes.
  pub data Forwarded : Reported h → Type 0 where
    turned_away :
        (e : ForwardError) (u' : Upstream)
        → Choice h u (egress_parts h req.parts) (clock 0) (refused e u')
        → Forwarded (err e, u', [])
    unread :
        (parts : Parts h) (idx : Option ℕ) (u' : Upstream)
        → Choice h u (egress_parts h req.parts) (clock 0) (ready parts idx u')
        → buffered h req.body ≡ none
        → Forwarded (err body_error, u', [])
    tried :
        (parts : Parts h) (idx : Option ℕ) (u' : Upstream) (bytes : Text) (k : ℕ)
        → Choice h u (egress_parts h req.parts) (clock 0) (ready parts idx u')
        → buffered h req.body ≡ some bytes
        → k < attempt_limit u.retry
        → should_retry u.retry k (client k (parts, bytes)) ≡ false
        → ((j : ℕ) → j < k → should_retry u.retry j (client j (parts, bytes)) ≡ true)
        → Forwarded (
            conclude h u' idx read_timeout
              (clock (suc k))
              (ending (client k (parts, bytes)), replicate (suc k) (parts, bytes)))

  send_none :
      (parts : Parts h) (idx : Option ℕ) (u' : Upstream)
      → choose h u (egress_parts h req.parts) (clock 0) ≡ done (ready parts idx u')
      → buffered h req.body ≡ none
      → forward h client clock u req read_timeout ≡ done (err body_error, u', [])
  unfolding forward
  send_none parts idx u' e n = rw e (rw n refl)

  send_some :
      (parts : Parts h) (idx : Option ℕ) (u' : Upstream) (bytes : Text) (o : Outcome h) (k : ℕ)
      → choose h u (egress_parts h req.parts) (clock 0) ≡ done (ready parts idx u')
      → buffered h req.body ≡ some bytes
      → attempts_loop h client u.retry (attempt_limit u.retry) 0 (some (parts, bytes)) 500
        ≡ done (o, replicate (suc k) (parts, bytes))
      → forward h client clock u req read_timeout
        ≡ done
            (conclude h u' idx read_timeout (clock (suc k)) (o, replicate (suc k) (parts, bytes)))
  unfolding forward
  send_some parts idx u' bytes o k e s run =
      rw e (rw s (rw run (rw (length-replicate {A = Outgoing h} k (parts, bytes)) refl)))

  forward_ready :
      (parts : Parts h) (idx : Option ℕ) (u' : Upstream)
      → choose h u (egress_parts h req.parts) (clock 0) ≡ done (ready parts idx u')
      → Choice h u (egress_parts h req.parts) (clock 0) (ready parts idx u')
      → (r : Reported h) × (forward h client clock u req read_timeout ≡ done r) × Forwarded r
  forward_ready parts idx u' e c = elim (Option-cases (buffered h req.body)) [
    | inl n ↦ ((err body_error, u', []), send_none parts idx u' e n, unread parts idx u' c n)
    | inr (bytes, s) ↦
        let (k, hi, run, fin, before) = attempts_loop_lem h client u.retry (parts, bytes) 500 in
        (
          conclude h u' idx read_timeout (clock (suc k))
              (ending (client k (parts, bytes)), replicate (suc k) (parts, bytes)),
          send_some parts idx u' bytes (ending (client k (parts, bytes))) k e s run,
          tried parts idx u' bytes k c s hi fin before,
        )
  ]

  forward_refused :
      (e : ForwardError) (u' : Upstream)
      → choose h u (egress_parts h req.parts) (clock 0) ≡ done (refused e u')
      → forward h client clock u req read_timeout ≡ done (err e, u', [])
  unfolding forward
  forward_refused e u' q = rw q refl

  -- On a valid upstream `forward` does not panic, and what it reports is of one of three kinds: the
  -- choice of a backend turned the request away, the body could not be read, or the retry loop came
  -- to its end.
  pub forward-Forwarded :
      IsValid u
      → (r : Reported h) × (forward h client clock u req read_timeout ≡ done r) × Forwarded r
  forward-Forwarded v =
      let (c, e, how) = choose-Choice h u (egress_parts h req.parts) (clock 0) v in split c e how
    where
      split :
          (c : Chosen h)
          → choose h u (egress_parts h req.parts) (clock 0) ≡ done c
          → Choice h u (egress_parts h req.parts) (clock 0) c
          → (r : Reported h) × (forward h client clock u req read_timeout ≡ done r) × Forwarded r
      split (ready parts idx u') e how = forward_ready parts idx u' e how
      split (refused why u') e how =
          ((err why, u', []), forward_refused why u' e, turned_away why u' how)
