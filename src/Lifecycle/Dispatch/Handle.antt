-- ===== src/Lifecycle/Dispatch/Handle.antt =====
-- Requests through `Dispatch::handle`.
use ferroxy.Prelude.{
  ℕ, ◌≡◌, refl, ◌≢◌, ◌∙◌, ap, sym, Option, none, some, Option-cases, inl, inr, arith,
}
use ferroxy.Prelude.Text.{Text, text_eq_self}
use ferroxy.Prelude.Checked.{Checked, panic, done, ◌>>=◌}
use ferroxy.Prelude.Result.{ok, err}
use ferroxy.Http.{Http}
use ferroxy.Upstream.Pool.{Upstream, SocketAddr, pick_addr}
use ferroxy.Upstream.Pool.Select.{IsValid, pick_addr_total}
use ferroxy.Upstream.Forward.{
  Request, Reply, Outgoing, Chosen, Parts, Reported, egress_parts, forward,
}
use ferroxy.Upstream.Forward.Outcomes.{Choice, direct, no_backend, bad_uri, backend, choose-Choice}
use ferroxy.Upstream.Forward.Reach.{chosen_state}
use ferroxy.Upstream.Forward.Until.{finished}
use ferroxy.Upstream.Forward.Until.Laws.{forward_until_lem}
use ferroxy.Lifecycle.Route.{Route}
use ferroxy.Lifecycle.Upstreams.{get}
use ferroxy.Lifecycle.Upstreams.Build.{get-insert}
use ferroxy.Lifecycle.Dispatch.{
  Dispatch, timeout, Handled, lift, updated, route_of, at_cut, with_timeout, dispatch_to, handle,
}

module _ (h : Http) (u : Upstream) (parts : Parts h) (now : ℕ) where
  -- The choice of a backend touches no breaker.
  pick_keeps :
      (u' : Upstream) (r : Option (SocketAddr × ℕ))
      → IsValid u
      → pick_addr u now ≡ done (r, u')
      → u'.breakers ≡ u.breakers
  pick_keeps u' r v e =
      let (r₁, u₁, e₁, same, v₁) = pick_addr_total u now v in
      let eq : u₁ ≡ u' = cc in
      let b : u₁.breakers ≡ u.breakers = ap (λ (t : Upstream). t.breakers) same in
      ap (λ (t : Upstream). t.breakers) (sym eq) ∙ b

  Choice-keeps :
      (c : Chosen h) → IsValid u → Choice h u parts now c → (chosen_state c).breakers ≡ u.breakers
  Choice-keeps _ v (direct e) = refl
  Choice-keeps _ v (no_backend u' e p) = pick_keeps u' none v p
  Choice-keeps _ v (bad_uri a i u' p) = pick_keeps u' (some (a, i)) v p
  Choice-keeps _ v (backend a i authority uri u' p g w) = pick_keeps u' (some (a, i)) v p

module _ (h : Http) (client : ℕ → Outgoing h → Reply h) (clock : ℕ → ℕ) (cut : ℕ → Option ℕ)
    (d : Dispatch h) (req : Request h) where
  not_report :
      (name : Text) (total : ℕ) (d' : Dispatch h) (r : Checked (Reported h))
      → (r >>= λ (t : Reported h).
          let out : Handled h = (lift h t.0, updated h d name t.1) in done out)
        ≢ done (err (timeout total), d')
  not_report name total d' panic q = cc
  not_report name total d' (done (ok resp, u, sent)) q = cc
  not_report name total d' (done (err e, u, sent)) q = cc

  finish_progress :
      (route : Route h) (r : Checked (Reported h))
      → ((r >>= λ t. done (finished t)) >>= λ t. done (at_cut h client clock cut d req route t)) ≡ (
          r >>= λ (t : Reported h).
          let out : Handled h = (lift h t.0, updated h d route.upstream t.1) in done out)
  finish_progress route panic = refl
  finish_progress route (done r) = refl

  -- A request that runs into the total timeout of its route leaves every breaker of its upstream as it
  -- was, if the upstream was valid, however far the attempts had come by then.
  pub handle_timeout :
      (route : Route h) (u : Upstream) (d' : Dispatch h) (total : ℕ)
      → route_of h d req ≡ some route
      → get d.upstreams route.upstream ≡ some u
      → IsValid u
      → handle h client clock cut d req ≡ done (err (timeout total), d')
      → (u' : Upstream) × (get d'.upstreams route.upstream ≡ some u')
        × (u'.breakers ≡ u.breakers)
        × (total ≡ route.total_timeout)
  unfolding handle dispatch_to with_timeout
  handle_timeout route u d' total found known v e =
      let (c, chosen, how) = choose-Choice h u (egress_parts h req.parts) (clock 0) v in
      let run : with_timeout h client clock cut d req route u ≡ done (err (timeout total), d') =
        rw (found, known) at e in
      elim (Option-cases (cut route.total_timeout)) [
        | inl t ↦ absurd (
            not_report route.upstream total d' (forward h client clock u req route.read_timeout)
              (rw (t, with_timeout) at run))
        | inr (n, t) ↦ elim (forward_until_lem h client clock n u req route.read_timeout c chosen) [
          | inl q ↦
              left (chosen_state c) (Choice-keeps h u (egress_parts h req.parts) (clock 0) c v how)
                (rw (t, q, with_timeout) at run)
          | inr q ↦ absurd (
              not_report route.upstream total d' (forward h client clock u req route.read_timeout) (
                sym (finish_progress route (forward h client clock u req route.read_timeout))
                ∙ (rw (t, q, with_timeout) at run)))
        ]
      ]
    where
      left :
          (u' : Upstream)
          → u'.breakers ≡ u.breakers
          → (let out : Handled h =
                (err (timeout route.total_timeout), updated h d route.upstream u') in
              done out ≡ done (err (timeout total), d'))
          → (u' : Upstream) × (get d'.upstreams route.upstream ≡ some u')
            × (u'.breakers ≡ u.breakers)
            × (total ≡ route.total_timeout)
      left u' k q =
          let same : updated h d route.upstream u' ≡ d' = cc in
          let held = get-insert route.upstream route.upstream u' d.upstreams in
          (
            u',
            ap (λ (t : Dispatch h). get t.upstreams route.upstream) (sym same)
                ∙ held
                ∙ ground (arith, text_eq_self route.upstream),
            k,
            cc,
          )
