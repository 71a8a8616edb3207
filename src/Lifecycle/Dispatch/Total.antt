-- ===== src/Lifecycle/Dispatch/Total.antt =====
-- `Dispatch::handle` always answers, and keeps its upstreams valid.
use ferroxy.Prelude.{Option, ℕ, ◌≡◌, refl, Option-cases, inl, inr}
use ferroxy.Prelude.Checked.{Checked, done}
use ferroxy.Prelude.Result.{err}
use ferroxy.Http.{Http}
use ferroxy.Upstream.Pool.{Upstream}
use ferroxy.Upstream.Pool.Select.{IsValid}
use ferroxy.Upstream.Pool.Reach.{built, IsValid-of_Reached}
use ferroxy.Upstream.Forward.{Request, Reply, Outgoing, egress_parts}
use ferroxy.Upstream.Forward.Outcomes.{choose-Choice, forward-Forwarded}
use ferroxy.Upstream.Forward.Until.Laws.{forward_until_lem}
use ferroxy.Upstream.Forward.Reach.{chosen_state, Choice-Reached, forward-Reached}
use ferroxy.Lifecycle.Route.{Route}
use ferroxy.Lifecycle.Upstreams.Valid.{IsValidMap, get-IsValidMap, insert-IsValidMap}
use ferroxy.Lifecycle.Upstreams.{get}
use ferroxy.Lifecycle.Dispatch.{
  Dispatch, no_route, upstream_not_registered, timeout, Handled, lift, updated, route_of,
  with_timeout, dispatch_to, handle,
}

module _ (h : Http) (client : ℕ → Outgoing h → Reply h) (clock : ℕ → ℕ) (cut : ℕ → Option ℕ)
    (d : Dispatch h) (req : Request h) where
  abbrev Answered : Checked (Handled h) → Type 0
  Answered run =
      (out : Handled h) × (run ≡ done out) × IsValidMap out.1.upstreams × (out.1.routes ≡ d.routes)

  with_timeout-Answered :
      (route : Route h) (u : Upstream)
      → IsValidMap d.upstreams
      → IsValid u
      → Answered (with_timeout h client clock cut d req route u)
  unfolding with_timeout
  with_timeout-Answered route u all v =
      let (c, chosen, how) = choose-Choice h u (egress_parts h req.parts) (clock 0) v in
      let v' =
        IsValid-of_Reached u (chosen_state c) v
          (Choice-Reached h u u (egress_parts h req.parts) (clock 0) c built how) in
      let (r, e, f) = forward-Forwarded h client clock u req route.read_timeout v in
      let s = forward-Reached h client clock u req route.read_timeout r v e in
      let whole : (out : Handled h) × (done (lift h r.0, updated h d route.upstream r.1) ≡ done out)
          × IsValidMap out.1.upstreams
          × (out.1.routes ≡ d.routes) =
        (
          (lift h r.0, updated h d route.upstream r.1),
          refl,
          insert-IsValidMap route.upstream r.1 d.upstreams (IsValid-of_Reached u r.1 v s) all,
          refl,
        ) in
      elim (Option-cases (cut route.total_timeout)) [
        | inl t ↦ rw (t, e, with_timeout) whole
        | inr (n, t) ↦ elim (forward_until_lem h client clock n u req route.read_timeout c chosen) [
          | inl q ↦
              rw (t, q, with_timeout)
                (
                  (err (timeout route.total_timeout), updated h d route.upstream (chosen_state c)),
                  refl,
                  insert-IsValidMap route.upstream (chosen_state c) d.upstreams v' all,
                  refl,
                )
          | inr q ↦ rw (t, q, e, with_timeout) whole
        ]
      ]

  -- If every upstream of the dispatcher is valid, `handle` answers every request without a panic, every
  -- upstream is valid afterwards, and the routes are the same.
  pub handle_total :
      IsValidMap d.upstreams
      → (out : Handled h) × (handle h client clock cut d req ≡ done out)
        × IsValidMap out.1.upstreams
        × (out.1.routes ≡ d.routes)
  unfolding handle dispatch_to get
  handle_total all = elim (Option-cases (route_of h d req)) [
    | inl e ↦ rw e ((err no_route, d), refl, all, refl)
    | inr (r, e) ↦ elim (Option-cases (get d.upstreams r.upstream)) [
      | inl g ↦ rw (e, g) ((err (upstream_not_registered r.upstream), d), refl, all, refl)
      | inr (u, g) ↦
          rw (e, g)
            (with_timeout-Answered r u all (get-IsValidMap r.upstream u d.upstreams.by_name all g))
    ]
  ]
