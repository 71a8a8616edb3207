-- ===== src/Upstream/Timed.antt =====
-- crates/conduit-upstream/src/timed.rs: the read deadline around a response body. A timer is the instant
-- at which it fires. The body inside is a parameter, the answer of its `poll_frame` an argument.
mod Laws
mod Tests
use ferroxy.Prelude.{ℕ, ◌+◌, Option, none, some, leb, if◌then◌else◌}

pub record TimedBody (B : Type 0) : Type 0 where
  pub inner : B
  pub timeout : ℕ
  pub sleep : Option ℕ

unfoldable pub new : {B : Type 0} → B → ℕ → TimedBody B
new inner timeout = record { inner = inner; timeout = timeout; sleep = none }

-- `Poll<Option<Result<Frame, E>>>`, without the cases that one body never mixes.
pub data Polled (F E : Type 0) : Type 0 where
  pending : Polled F E
  frame : F → Polled F E
  failed : E → Polled F E
  ended : Polled F E

-- The boxed error of a `TimedBody`: its own, or the inner body's.
pub data TimedError (E : Type 0) : Type 0 where
  read_timeout : ℕ → TimedError E
  inner_error : E → TimedError E

abbrev armed : {B : Type 0} → TimedBody B → ℕ → ℕ
armed t now = elim t.sleep [ none ↦ now + t.timeout | some at ↦ at ]

module _ {B F E : Type 0} (poll_inner : B → Polled F E × B) where
  -- The timer in force, after the inner body has answered.
  settle : TimedBody B → ℕ → ℕ → Polled F E × B → Polled F (TimedError E) × TimedBody B
  settle t now at (pending, b) =
      if leb at now
      then (
        failed (read_timeout t.timeout),
        record { inner = b; timeout = t.timeout; sleep = none },
      )
      else (pending, record { inner = b; timeout = t.timeout; sleep = some at })
  settle t now at (frame f, b) = (frame f, record { inner = b; timeout = t.timeout; sleep = none })
  settle t now at (failed e, b) =
      (failed (inner_error e), record { inner = b; timeout = t.timeout; sleep = none })
  settle t now at (ended, b) = (ended, record { inner = b; timeout = t.timeout; sleep = none })

  unfoldable pub poll_frame : TimedBody B → ℕ → Polled F (TimedError E) × TimedBody B
  unfolding settle
  poll_frame t now = settle t now (armed t now) (poll_inner t.inner)
