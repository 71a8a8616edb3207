-- ===== src/Process/Shutdown/Turns.antt =====
-- What the shutdown of crates/conduit/src/main.rs does between two signals.
use ferroxy.Prelude.{ℕ, ◌≡◌, true, List, Option, none, some, length}
use ferroxy.Process.Shutdown.{Thread, Threads, Event, sighup, sigterm, ends}

-- What the signal thread has yet to store.
abbrev pub storing_weight : Option (List Thread) → ℕ
storing_weight none = 0
storing_weight (some ts) = length ts

-- What the threads do by themselves, once the flag of a thread that serves is set.
abbrev pub Due : Threads → Event → Type 0
Due s sighup = ⊥
Due s sigterm = ⊥
Due s (ends t) = s.stop t ≡ true
Due s e = Unit {0}
