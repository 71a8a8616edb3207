-- ===== src/Upstream/Pool/Degraded.antt =====
-- The aggregate state of an upstream's breakers, and what an outcome does to them.
use ferroxy.Prelude.{
  ℕ, ◌+◌, ◌≤◌, ◌≡◌, refl, ◌≢◌, ◌↔◌, List, [], ◌∷◌, none, some, Bool, false, ◌==◌, All, arith,
  length, get_elem?, get_elem?-set_self, get_elem?-set_ne, lt-of_get_elem?, u64_max, is_empty,
  if◌then◌else◌,
}
use ferroxy.Prelude.Checked.{done}
use ferroxy.Prelude.Text.{Text}
use ferroxy.Upstream.Breaker.{
  Breaker, closed, open_, half_open, BreakerState, reject, half_open, check, snapshot, on_success,
  on_failure,
}
use ferroxy.Upstream.Pool.{Upstream, scan, pick_addr, tally, breaker_state, observe_breaker_outcome}

abbrev is_closed : BreakerState → ℕ
is_closed closed = 1
is_closed _ = 0

abbrev is_open : BreakerState → ℕ
is_open open_ = 1
is_open _ = 0

count_closed : ℕ → List Breaker → ℕ
count_closed now [] = 0
count_closed now (b ∷ bs) = is_closed (snapshot b now) + count_closed now bs

count_open : ℕ → List Breaker → ℕ
count_open now [] = 0
count_open now (b ∷ bs) = is_open (snapshot b now) + count_open now bs

tally_lem :
    (now : ℕ) (bs : List Breaker) (m n : ℕ)
    → tally now bs (m, n) ≡ (m + count_closed now bs, n + count_open now bs)
unfolding tally count_closed count_open
tally_lem now [] m n = ground arith
tally_lem now (b ∷ bs) m n =
    ground (arith, tally_lem now bs (m + 1) n, tally_lem now bs m (n + 1), tally_lem now bs m n)

count_closed-le : (now : ℕ) (bs : List Breaker) → count_closed now bs ≤ length bs
unfolding count_closed
count_closed-le now [] = omega arith
count_closed-le now (b ∷ bs) = ground (arith, count_closed-le now bs)

count_open-le : (now : ℕ) (bs : List Breaker) → count_open now bs ≤ length bs
unfolding count_open
count_open-le now [] = omega arith
count_open-le now (b ∷ bs) = ground (arith, count_open-le now bs)

All-closed :
    (now : ℕ) (bs : List Breaker)
    → (count_closed now bs ≡ length bs) ↔ All (λ b. snapshot b now ≡ closed) bs
unfolding count_closed
All-closed now [] = (λ e. tt, λ a. refl)
All-closed now (b ∷ bs) = ground (arith, All-closed now bs, count_closed-le now bs)

mixed :
    (now : ℕ) (b : Breaker) (bs : List Breaker)
    → count_open now (b ∷ bs) ≡ length (b ∷ bs)
    → count_closed now (b ∷ bs) ≢ length (b ∷ bs)
unfolding count_open count_closed
mixed now b bs h = ground (arith, count_open-le now bs, count_closed-le now bs)

All-open :
    (now : ℕ) (bs : List Breaker)
    → (count_open now bs ≡ length bs) ↔ All (λ b. snapshot b now ≡ open_) bs
unfolding count_open
All-open now [] = (λ e. tt, λ a. refl)
All-open now (b ∷ bs) = ground (arith, All-open now bs, count_open-le now bs)

-- The aggregate state in terms of the two counts.
breaker_state-counts :
    (u : Upstream) (now : ℕ)
    → breaker_state u now ≡ (
        if is_empty u.breakers
        then closed
        else if count_closed now u.breakers == length u.breakers
        then closed
        else if count_open now u.breakers == length u.breakers
        then open_
        else half_open)
unfolding breaker_state
breaker_state-counts u now = ground (arith, tally_lem now u.breakers 0 0)

-- The aggregate state is closed exactly if every breaker is closed, which holds of no breakers.
pub breaker_state_closed :
    (u : Upstream) (now : ℕ)
    → (breaker_state u now ≡ closed) ↔ All (λ b. snapshot b now ≡ closed) u.breakers
breaker_state_closed u now = split u.breakers (breaker_state-counts u now)
  where
    split :
        (bs : List Breaker)
        → breaker_state u now ≡ (
            if is_empty bs
            then closed
            else if count_closed now bs == length bs
            then closed
            else if count_open now bs == length bs
            then open_
            else half_open)
        → (breaker_state u now ≡ closed) ↔ All (λ b. snapshot b now ≡ closed) bs
    split [] e = (λ h. tt, λ h. e)
    split (b ∷ bs) e =
        let c = All-closed now (b ∷ bs) in (λ h. c.0 (ground arith), λ h. ground (arith, c.1 h))

-- The aggregate state is open exactly if there are breakers and all of them are open.
pub breaker_state_open :
    (u : Upstream) (now : ℕ)
    → (breaker_state u now ≡ open_)
      ↔ ((is_empty u.breakers ≡ false) × All (λ b. snapshot b now ≡ open_) u.breakers)
breaker_state_open u now = split u.breakers (breaker_state-counts u now)
  where
    split :
        (bs : List Breaker)
        → breaker_state u now ≡ (
            if is_empty bs
            then closed
            else if count_closed now bs == length bs
            then closed
            else if count_open now bs == length bs
            then open_
            else half_open)
        → (breaker_state u now ≡ open_)
          ↔ ((is_empty bs ≡ false) × All (λ b. snapshot b now ≡ open_) bs)
    split [] e = (λ h. cc, λ h. cc (h.0))
    split (b ∷ bs) e =
        let c = All-closed now (b ∷ bs) in
        let o = All-open now (b ∷ bs) in
        (λ h. (refl, o.0 (ground arith)), λ h. ground (arith, o.1 h.1, mixed now b bs))

-- Recording an outcome for the backend at an index in range updates that backend's breaker by
-- `on_success` or `on_failure`, and leaves every other breaker as it was.
pub observe_breaker_outcome_lem :
    (u : Upstream) (i j now : ℕ) (success : Bool) (b : Breaker)
    → get_elem? u.breakers i ≡ some b
    → i ≢ j
    → let bs = (observe_breaker_outcome u (some i) success now).breakers in
      (get_elem? bs i ≡ some (if success then on_success b else on_failure b now))
      × (get_elem? bs j ≡ get_elem? u.breakers j)
unfolding observe_breaker_outcome
observe_breaker_outcome_lem u i j now success b e ne = ground (
  arith,
  lt-of_get_elem? u.breakers i e,
  get_elem?-set_self u.breakers i (if success then on_success b else on_failure b now),
  get_elem?-set_ne u.breakers i j (if success then on_success b else on_failure b now) ne,
)

-- With three backends, the counter at its largest value, and the breakers of the first two rejecting
-- the request, `pick_addr` finds no backend, whatever the breaker of the third says.
pub pick_addr_wrapped :
    (u : Upstream) (now : ℕ) (a₀ a₁ a₂ : Text) (b₀ b₁ b₂ : Breaker)
    → u.addrs ≡ a₀ ∷ a₁ ∷ a₂ ∷ []
    → u.breakers ≡ b₀ ∷ b₁ ∷ b₂ ∷ []
    → u.next ≡ u64_max
    → check b₀ now ≡ reject
    → check b₁ now ≡ reject
    → pick_addr u now ≡ done (none, record u { next = 0 })
unfolding pick_addr scan
pick_addr_wrapped u now a₀ a₁ a₂ b₀ b₁ b₂ ea eb en r₀ r₁ = ground arith
