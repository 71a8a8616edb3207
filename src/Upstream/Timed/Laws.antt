-- ===== src/Upstream/Timed/Laws.antt =====
-- When the read deadline of a `TimedBody` fires, over whole sequences of polls.
use ferroxy.Prelude.{
  ℕ, suc, ◌+◌, ◌≤◌, ◌<◌, ◌≡◌, refl, none, some, List, [], ◌∷◌, arith, leb, if◌then◌else◌, true,
  false, All, ◌++◌, replicate, length,
}
use ferroxy.Upstream.Timed.{
  TimedBody, new, Polled, pending, frame, failed, TimedError, read_timeout, poll_frame, armed,
  settle,
}

module _ {B F E : Type 0} (poll_inner : B → Polled F E × B) where
  -- The polls at the given instants, one after the other; the answers, oldest first.
  unfoldable pub polls : TimedBody B → List ℕ → List (Polled F (TimedError E)) × TimedBody B
  polls t [] = ([], t)
  polls t (now ∷ later) =
      let (answer, t') = poll_frame poll_inner t now in
      let (answers, t'') = polls t' later in (answer ∷ answers, t'')

  -- The body has nothing to say.
  unfoldable pub Silent : B → Type 0
  Silent b = poll_inner b ≡ (pending, b)

  poll_frame-Silent :
      (t : TimedBody B) (now : ℕ)
      → Silent t.inner
      → poll_frame poll_inner t now ≡ (
          if leb (armed t now) now
          then (failed (read_timeout t.timeout), record t { sleep = none })
          else (pending, record t { sleep = some (armed t now) }))
  unfolding poll_frame Silent settle
  poll_frame-Silent t now s = rw s refl

  abbrev waiting : B → ℕ → ℕ → TimedBody B
  waiting b timeout at = record { inner = b; timeout = timeout; sleep = some at }

  polls-waiting :
      (b : B) (timeout at last : ℕ) (ts : List ℕ)
      → Silent b
      → All (λ n. n < at) ts
      → at ≤ last
      → polls (waiting b timeout at) (ts ++ last ∷ [])
        ≡ (replicate (length ts) pending ++ failed (read_timeout timeout) ∷ [], new b timeout)
  unfolding polls new
  polls-waiting b timeout at last [] s a l =
      let fires : leb at last ≡ true = ground arith in
      rw (poll_frame-Silent (waiting b timeout at) last s, fires) refl
  polls-waiting b timeout at last (n ∷ ts) s a l =
      let waits : leb at n ≡ false = ground (arith, a.0) in
      let e = polls-waiting b timeout at last ts s a.1 l in
      rw (poll_frame-Silent (waiting b timeout at) n s, waits, e) refl

  -- With a positive timeout, a body that stays silent answers every poll before the deadline with
  -- `Pending`, and the first poll at or after it with a timeout error, which resets the body. The
  -- deadline runs from the first poll.
  pub polls-Silent :
      (b : B) (timeout first last : ℕ) (ts : List ℕ)
      → Silent b
      → 0 < timeout
      → All (λ n. n < first + timeout) ts
      → first + timeout ≤ last
      → polls (new b timeout) (first ∷ ts ++ last ∷ [])
        ≡ (replicate (suc (length ts)) pending ++ failed (read_timeout timeout) ∷ [], new b timeout)
  unfolding polls new
  polls-Silent b timeout first last ts s p a l =
      let waits : leb (first + timeout) first ≡ false = ground arith in
      let e = polls-waiting b timeout (first + timeout) last ts s a l in
      rw (poll_frame-Silent (new b timeout) first s, waits, e) refl

  -- With a positive timeout, a frame that is there is delivered even if the deadline has passed, and
  -- the deadline of the next frame runs from the poll after it, if the body is silent from then on.
  pub polls-frame :
      (t : TimedBody B) (now next : ℕ) (f : F) (b : B)
      → poll_inner t.inner ≡ (frame f, b)
      → Silent b
      → 0 < t.timeout
      → polls t (now ∷ next ∷ []) ≡ (frame f ∷ pending ∷ [], waiting b t.timeout (next + t.timeout))
  unfolding polls poll_frame settle Silent
  polls-frame t now next f b e s p =
      let waits : leb (next + t.timeout) next ≡ false = ground arith in rw (e, s, waits) refl
