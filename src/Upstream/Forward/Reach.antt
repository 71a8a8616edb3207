-- ===== src/Upstream/Forward/Reach.antt =====
-- A run of `forward` takes its upstream to a state that picks and recorded outcomes reach.
use ferroxy.Prelude.{ℕ, suc, ◌≡◌, sym, ap, subst, none, some, replicate}
use ferroxy.Prelude.Checked.{done}
use ferroxy.Http.{Http}
use ferroxy.Upstream.Pool.{Upstream}
use ferroxy.Upstream.Pool.Select.{IsValid}
use ferroxy.Upstream.Pool.Reach.{Reached, built, picked, observed}
use ferroxy.Upstream.Forward.{
  Parts, Request, Reply, Outgoing, Chosen, ready, refused, Reported, egress_parts, forward,
}
use ferroxy.Upstream.Forward.Outcomes.{
  Choice, direct, no_backend, bad_uri, backend, Forwarded, turned_away, unread, tried,
}
use ferroxy.Upstream.Forward.Promises.{is_healthy, conclude-ending, Run-of}

-- The upstream that a choice leaves behind.
abbrev pub chosen_state : {h : Http} → Chosen h → Upstream
chosen_state (ready parts idx u) = u
chosen_state (refused e u) = u

pub Choice-Reached :
    (h : Http) (start u : Upstream) (parts : Parts h) (now : ℕ) (c : Chosen h)
    → Reached start u
    → Choice h u parts now c
    → Reached start (chosen_state c)
Choice-Reached h start u parts now _ s (direct e) = s
Choice-Reached h start u parts now _ s (no_backend u' e p) = picked u u' now none s p
Choice-Reached h start u parts now _ s (bad_uri a i u' p) = picked u u' now (some (a, i)) s p
Choice-Reached h start u parts now _ s (backend a i authority uri u' p g w) =
    picked u u' now (some (a, i)) s p

module _ (h : Http) (client : ℕ → Outgoing h → Reply h) (clock : ℕ → ℕ) (u : Upstream)
    (req : Request h) (read_timeout : ℕ) where
  -- On a valid upstream, the state after `forward` is one that picks and recorded outcomes reach from
  -- the state before it.
  pub forward-Reached :
      (r : Reported h)
      → IsValid u
      → forward h client clock u req read_timeout ≡ done r
      → Reached u r.1
  forward-Reached r v e = go (Run-of h client clock u req read_timeout v r e)
    where
      go : {r : Reported h} → Forwarded h client clock u req read_timeout r → Reached u r.1
      go (turned_away x u' c) = Choice-Reached h u u (egress_parts h req.parts) (clock 0) _ built c
      go (unread parts idx u' c m) =
          Choice-Reached h u u (egress_parts h req.parts) (clock 0) _ built c
      go (tried parts idx u' bytes k c s hi fin before) =
          let e =
            conclude-ending h u' idx read_timeout (clock (suc k)) (client k (parts, bytes))
              (replicate (suc k) (parts, bytes)) in
          let s' : Reached u u' =
            Choice-Reached h u u (egress_parts h req.parts) (clock 0) _ built c in
          subst (Reached u) (sym (ap (λ (t : Reported h). t.1) e))
            (observed u' idx (is_healthy (client k (parts, bytes))) (clock (suc k)) s')
