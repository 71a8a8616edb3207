-- ===== src/Upstream/Timed/Tests.antt =====
-- A backend that says nothing, and one that sends a frame late.
use ferroxy.Prelude.{
  ℕ, ◌+◌, ◌<◌, ◌≤◌, ◌≡◌, refl, Bool, true, false, [], ◌∷◌, ◌++◌, some, All, replicate, arith,
}
use ferroxy.Upstream.Timed.{TimedBody, new, Polled, pending, frame, failed, read_timeout}
use ferroxy.Upstream.Timed.Laws.{polls, Silent, polls-Silent}

-- The body is whether a frame is waiting; the frame is a number.
poll_bit : Bool → Polled ℕ ℕ × Bool
poll_bit true = (frame 7, false)
poll_bit false = (pending, false)

silent : Silent poll_bit false
unfolding Silent poll_bit
silent = refl

timeout_positive : let timeout : ℕ = 30 in 0 < timeout
timeout_positive = omega arith

in_time : All (λ n. n < 5 + 30) (20 ∷ 34 ∷ [])
in_time = ground arith

late : let last : ℕ = 40 in 5 + 30 ≤ last
late = omega arith

polls-Silent_example :
    polls poll_bit (new false 30) (5 ∷ (20 ∷ 34 ∷ []) ++ 40 ∷ [])
    ≡ (replicate 3 pending ++ failed (read_timeout 30) ∷ [], new false 30)
polls-Silent_example =
    polls-Silent poll_bit false 30 5 40 (20 ∷ 34 ∷ []) silent timeout_positive in_time late

-- The frame comes at 50, past the deadline at 35.
abbrev overdue : TimedBody Bool
overdue = record { inner = true; timeout = 30; sleep = some 35 }

has_frame : poll_bit overdue.inner ≡ (frame 7, false)
unfolding poll_bit
has_frame = refl
