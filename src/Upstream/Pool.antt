-- ===== src/Upstream/Pool.antt =====
-- The state of `Upstream` in crates/conduit-upstream/src/lib.rs, its constructor, and the choice of a
-- backend by `pick_addr`. A backend address stands for its printed form: the program copies and
-- prints addresses and does nothing else with them.
pub mod Select
pub mod Degraded
pub mod Reach
mod Tests
use ferroxy.Prelude.{
  ℕ, zero, suc, ◌+◌, ◌%◌, List, [], ◌∷◌, Option, none, some, length, get_elem?, is_empty, replicate,
  set, u64_mod, ◌==◌, if◌then◌else◌, Bool,
}
use ferroxy.Prelude.Text.{Text}
use ferroxy.Prelude.Checked.{Checked, panic, done, expect, ◌>>=◌}
use ferroxy.Upstream.Breaker.{
  Breaker, BreakerConfig, BreakerState, closed, open_, half_open, Decision, allow, reject, check,
  snapshot, on_success, on_failure,
}
use ferroxy.Upstream.Breaker
use ferroxy.Upstream.Retry.{RetryPolicy}

abbrev pub SocketAddr : Type 0
SocketAddr = Text

pub record Upstream : Type 0 where
  pub retry : RetryPolicy
  pub addrs : List SocketAddr
  pub authorities : List Text
  pub next : ℕ
  pub breakers : List Breaker

-- One new breaker for each address; `clock i` is the instant at which the breaker `i` is built.
unfoldable pub new_breakers : BreakerConfig → (ℕ → ℕ) → ℕ → List SocketAddr → List Breaker
new_breakers cfg clock i [] = []
new_breakers cfg clock i (addr ∷ addrs) =
    Breaker.new cfg (clock i) ∷ new_breakers cfg clock (i + 1) addrs

-- `Upstream::with_options`, whose connector without TLS settings is always built.
unfoldable pub with_options : RetryPolicy → List SocketAddr → BreakerConfig → (ℕ → ℕ) → Upstream
with_options retry addrs breaker clock = record {
  retry = retry;
  addrs = addrs;
  authorities = addrs;
  next = 0;
  breakers = new_breakers breaker clock 0 addrs;
}

-- The `for offset in 0..len` loop of `pick_addr`; the first number counts the rounds left.
unfoldable pub scan : ℕ → Upstream → ℕ → ℕ → ℕ → ℕ → Checked (Option (SocketAddr × ℕ))
scan zero u now start len offset = done none
scan (suc rounds) u now start len offset =
    let idx : ℕ = (start + offset) % u64_mod % len in
    let rest : Checked (Option (SocketAddr × ℕ)) = scan rounds u now start len (offset + 1) in
    do
      b ← expect (get_elem? u.breakers idx)
      elim (check b now) [
        | allow ↦ do addr ← expect (get_elem? u.addrs idx); done (some (addr, idx))
        | reject ↦ rest
      ]

unfoldable pub pick_addr : Upstream → ℕ → Checked (Option (SocketAddr × ℕ) × Upstream)
pick_addr u now = if is_empty u.addrs then done (none, u) else do
  picked ← scan (length u.addrs) u now u.next (length u.addrs) 0
  done (picked, record u { next = (u.next + 1) % u64_mod })

abbrev count_state : BreakerState → ℕ × ℕ → ℕ × ℕ
count_state closed (closed_count, open_count) = (closed_count + 1, open_count)
count_state open_ (closed_count, open_count) = (closed_count, open_count + 1)
count_state half_open counts = counts

-- The loop of `breaker_state`, over the numbers of closed and open breakers seen.
unfoldable pub tally : ℕ → List Breaker → ℕ × ℕ → ℕ × ℕ
tally now [] counts = counts
tally now (b ∷ bs) counts = tally now bs (count_state (snapshot b now) counts)

unfoldable pub breaker_state : Upstream → ℕ → BreakerState
breaker_state u now =
    if is_empty u.breakers
    then closed
    else let (closed_count, open_count) = tally now u.breakers (0, 0) in
      if closed_count == length u.breakers
      then closed
      else if open_count == length u.breakers
      then open_
      else half_open

-- What `observe_breaker_outcome` does to the breaker that it finds.
abbrev observe : Bool → ℕ → Breaker → Breaker
observe success now b = if success then on_success b else on_failure b now

unfoldable pub observe_breaker_outcome : Upstream → Option ℕ → Bool → ℕ → Upstream
observe_breaker_outcome u none success now = u
observe_breaker_outcome u (some i) success now = elim (get_elem? u.breakers i) [
  | none ↦ u
  | some b ↦ record u { breakers = set u.breakers i (observe success now b) }
]
