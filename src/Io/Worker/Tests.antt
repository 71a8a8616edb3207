-- ===== src/Io/Worker/Tests.antt =====
-- Workers that drain, and one that a handler panicked in.
use ferroxy.Prelude.{
  ℕ, suc, ◌+◌, ◌≤◌, ◌<◌, ◌≡◌, refl, ◌↔◌, Bool, List, [], ◌∷◌, none, some, map, All, arith, u64_mod,
}
use ferroxy.Io.Worker.{
  Worker, Event, flag_read, connected, idle, returned, panicked, cancelled, run, step, drain, wait,
  default_counts, exit_code,
}
use ferroxy.Io.Worker.Drain.{IsCounted, drain_lem, slept, IsOver}
use ferroxy.Io.Worker.Exit.{History, report_of, connects, all_connects, IsDrained, exit_code-wait}

-- A loop that waits when the flag goes up accepts once more; the second handler panics.
abbrev events : List Event
events =
    connected ∷ flag_read ∷ panicked ∷ connected ∷ cancelled ∷ flag_read ∷ returned ∷ connected
    ∷ flag_read ∷ []

after : run 1 events ≡ record {
  accepted = 2;
  completed = 1;
  flag = Bool.true;
  loops = 0;
  waiting = 0;
  running = 0;
  crashed = 1;
}
unfolding run step
after = refl

few_tasks : (run 1 events).running + (run 1 events).crashed < u64_mod
unfolding run step
few_tasks = omega arith

abbrev busy : Worker
busy = record {
  accepted = 3;
  completed = 2;
  flag = Bool.true;
  loops = 1;
  waiting = 1;
  running = 1;
  crashed = 0;
}

abbrev during : ℕ → List Event
during i = idle ∷ []

abbrev elapsed : ℕ → ℕ
elapsed i = i

late : 4 ≤ elapsed (0 + 5)
late = omega arith

drain_example :
    (k : ℕ) × (k ≤ 5)
    × (drain (suc 5) during elapsed 4 0 busy ≡ some (slept during 0 busy k))
    × IsOver elapsed 4 (0 + k) (slept during 0 busy k)
    × ((j : ℕ) → j < k → ¬ IsOver elapsed 4 (0 + j) (slept during 0 busy j))
    × (IsCounted busy → IsCounted (slept during 0 busy k))
drain_example = drain_lem 5 during elapsed 4 0 busy late

-- The worker above, one that has panicked, and one that has served a connection.
abbrev histories : List History
histories = some (1, events) ∷ none ∷ some (1, returned ∷ connected ∷ flag_read ∷ []) ∷ []

few : all_connects histories < u64_mod
unfolding connects
few = omega arith

exits_with_1 : exit_code (wait (map report_of histories) default_counts) ≡ 1
unfolding wait run step
exits_with_1 = refl

exit_code-wait_example :
    (exit_code (wait (map report_of histories) default_counts) ≡ 0) ↔ All IsDrained histories
exit_code-wait_example = exit_code-wait histories few
