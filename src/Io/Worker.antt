-- ===== src/Io/Worker.antt =====
-- One worker of crates/conduit-io/src/tokio_worker.rs as a state with the steps that its accept loops and
-- its connection tasks take in any order, then its drain loop and `Server::wait`. Counters have 64
-- bits. A handler that panics ends its task without counting it.
pub mod Drain
pub mod Exit
mod Tests
use ferroxy.Prelude.{
  ℕ, zero, suc, ◌+◌, ◌-◌, ◌%◌, ◌≡◌, leb, ◌==◌, if◌then◌else◌, Bool, true, false, not, List, [], ◌∷◌,
  Option, none, some, u64_mod, sat_add_u64,
}

pub record WorkerCounts : Type 0 where
  pub accepted : ℕ
  pub completed : ℕ

-- The shared counters and the flag, with what the code does not count: the accept loops that are about
-- to read the flag and those that wait for a connection, and the tasks that run or have panicked.
pub record Worker : Type 0 where
  pub accepted : ℕ
  pub completed : ℕ
  pub flag : Bool
  pub loops : ℕ
  pub waiting : ℕ
  pub running : ℕ
  pub crashed : ℕ

abbrev pub default_counts : WorkerCounts
default_counts = record { accepted = 0; completed = 0 }

-- A worker with so many listeners.
abbrev pub started : ℕ → Worker
started listeners = record {
  accepted = 0;
  completed = 0;
  flag = false;
  loops = listeners;
  waiting = 0;
  running = 0;
  crashed = 0;
}

-- What happens next: an accept loop reads the flag, gets a connection, or gets an error or a timeout;
-- a handler returns or panics; someone cancels.
pub data Event : Type 0 where
  flag_read connected idle returned panicked cancelled : Event

-- A loop that finds the flag up ends; one that has found it down still accepts. An event for which no
-- loop or task is there changes nothing.
unfoldable pub step : Worker → Event → Worker
step w flag_read =
    if w.loops == 0
    then w
    else if w.flag
    then record w { loops = w.loops - 1 }
    else record w { loops = w.loops - 1; waiting = w.waiting + 1 }
step w connected = if w.waiting == 0 then w else record w {
  accepted = (w.accepted + 1) % u64_mod;
  waiting = w.waiting - 1;
  loops = w.loops + 1;
  running = w.running + 1;
}
step w idle =
    if w.waiting == 0 then w else record w { waiting = w.waiting - 1; loops = w.loops + 1 }
step w returned =
    if w.running == 0
    then w
    else record w { completed = (w.completed + 1) % u64_mod; running = w.running - 1 }
step w panicked =
    if w.running == 0 then w else record w { running = w.running - 1; crashed = w.crashed + 1 }
step w cancelled = record w { flag = true }

-- The newest event stands first.
unfoldable pub run : ℕ → List Event → Worker
run listeners [] = started listeners
run listeners (e ∷ es) = step (run listeners es) e

-- The drain loop: `during i` are the events during its sleep `i`, each of which lasts at least one
-- `poll` period, and the first number bounds its rounds.
unfoldable pub steps : Worker → List Event → Worker
steps w [] = w
steps w (e ∷ es) = steps (step w e) es

unfoldable pub drain : ℕ → (ℕ → List Event) → (ℕ → ℕ) → ℕ → ℕ → Worker → Option Worker
unfolding steps
drain zero during elapsed deadline i w = none
drain (suc rounds) during elapsed deadline i w =
    let rest = drain rounds during elapsed deadline (i + 1) (steps w (during i)) in
    if w.accepted == w.completed then some w else if leb deadline (elapsed i) then some w else rest

abbrev pub counts_of : Worker → WorkerCounts
counts_of w = record { accepted = w.accepted; completed = w.completed }

-- `h.join().unwrap_or_default()`; a worker thread that panicked is `none`.
abbrev joined : Option WorkerCounts → WorkerCounts
joined none = default_counts
joined (some c) = c

-- `Server::wait`, over the worker threads in order.
unfoldable pub wait : List (Option WorkerCounts) → WorkerCounts → WorkerCounts
wait [] totals = totals
wait (h ∷ hs) totals =
    let c = joined h in
    wait hs (record {
      accepted = sat_add_u64 totals.accepted c.accepted;
      completed = sat_add_u64 totals.completed c.completed;
    })

-- `Server::wait` of crates/conduit-io/src/monoio_worker.rs, whose sums wrap in a release build.
unfoldable pub wait_wrapping : List (Option WorkerCounts) → WorkerCounts → WorkerCounts
wait_wrapping [] report = report
wait_wrapping (none ∷ hs) report = wait_wrapping hs report
wait_wrapping (some c ∷ hs) report = wait_wrapping hs (record {
  accepted = (report.accepted + c.accepted) % u64_mod;
  completed = (report.completed + c.completed) % u64_mod;
})

-- The exit code at the end of `main`.
abbrev pub exit_code : WorkerCounts → ℕ
exit_code report = if report.accepted == report.completed then 0 else 1
