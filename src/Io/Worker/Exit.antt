-- ===== src/Io/Worker/Exit.antt =====
-- `Server::wait` of crates/conduit-io over the histories of the workers, and the exit code of crates/conduit/src/main.rs.
use ferroxy.Prelude.{
  ℕ, ◌+◌, ◌%◌, ◌≤◌, ◌<◌, ◌≡◌, refl, ap, ◌∙◌, ◌↔◌, List, [], ◌∷◌, map, Option, none, some, All,
  arith, sat_add_u64, u64_mod,
}
use ferroxy.Io.Worker.{
  Worker, WorkerCounts, Event, flag_read, connected, idle, returned, panicked, cancelled, step, run,
  counts_of, default_counts, wait, wait_wrapping, exit_code,
}
use ferroxy.Io.Worker.Drain.{run-IsCounted}

-- The connections that come during some events.
unfoldable pub connects : List Event → ℕ
connects [] = 0
connects (connected ∷ es) = 1 + connects es
connects (e ∷ es) = connects es

-- The handlers of a worker that have not returned.
abbrev pub unfinished : Worker → ℕ
unfinished w = w.running + w.crashed

step-tasks :
    (w : Worker) (e : Event)
    → (step w e).completed + unfinished (step w e) ≤ w.completed + unfinished w + connects (e ∷ [])
unfolding step connects
step-tasks w connected = ground arith
step-tasks w flag_read = ground arith
step-tasks w idle = ground arith
step-tasks w returned = ground arith
step-tasks w panicked = ground arith
step-tasks w cancelled = ground arith

connects-cons : (e : Event) (es : List Event) → connects (e ∷ es) ≡ connects (e ∷ []) + connects es
unfolding connects
connects-cons connected es = omega arith
connects-cons flag_read es = omega arith
connects-cons idle es = omega arith
connects-cons returned es = omega arith
connects-cons panicked es = omega arith
connects-cons cancelled es = omega arith

run-tasks : (n : ℕ) (es : List Event) → (run n es).completed + unfinished (run n es) ≤ connects es
unfolding run connects
run-tasks n [] = omega arith
run-tasks n (e ∷ es) = omega (arith, step-tasks (run n es) e, run-tasks n es, connects-cons e es)

-- With fewer than 2^64 connections, the counters of a worker differ by the handlers that have not
-- returned.
run-exact :
    (n : ℕ) (es : List Event)
    → connects es < u64_mod
    → (run n es).accepted ≡ (run n es).completed + unfinished (run n es)
run-exact n es h = omega (arith, (run-IsCounted n es).balance, run-tasks n es)

-- What has happened to a worker with so many listeners; `none` is one whose thread panicked.
abbrev pub History : Type 0
History = Option (ℕ × List Event)

abbrev pub report_of : History → Option WorkerCounts
report_of none = none
report_of (some (n, es)) = some (counts_of (run n es))

abbrev pub all_connects : List History → ℕ
all_connects [] = 0
all_connects (none ∷ hs) = all_connects hs
all_connects (some (n, es) ∷ hs) = connects es + all_connects hs

-- No handler is left over, where the thread lives to report it.
abbrev pub IsDrained : History → Type 0
IsDrained none = Unit {0}
IsDrained (some (n, es)) = unfinished (run n es) ≡ 0

unfoldable pub sum_accepted : List (Option WorkerCounts) → ℕ
sum_accepted [] = 0
sum_accepted (none ∷ cs) = sum_accepted cs
sum_accepted (some c ∷ cs) = c.accepted + sum_accepted cs

unfoldable pub sum_completed : List (Option WorkerCounts) → ℕ
sum_completed [] = 0
sum_completed (none ∷ cs) = sum_completed cs
sum_completed (some c ∷ cs) = c.completed + sum_completed cs

wait-sums :
    (cs : List (Option WorkerCounts)) (t : WorkerCounts)
    → t.accepted + sum_accepted cs < u64_mod
    → t.completed + sum_completed cs < u64_mod
    → (let r = wait cs t in
        (r.accepted ≡ t.accepted + sum_accepted cs)
        × (r.completed ≡ t.completed + sum_completed cs))
unfolding wait sum_accepted sum_completed
wait-sums [] t a c = (omega arith, omega arith)
wait-sums (none ∷ cs) t a c =
    let da : sat_add_u64 t.accepted 0 ≡ t.accepted = ground arith in
    let dc : sat_add_u64 t.completed 0 ≡ t.completed = ground arith in
    let ih =
      wait-sums cs
        (record { accepted = sat_add_u64 t.accepted 0; completed = sat_add_u64 t.completed 0 })
        (omega (arith, da)) (omega (arith, dc)) in
    (omega (arith, da, ih.0), omega (arith, dc, ih.1))
wait-sums (some w ∷ cs) t a c =
    let da : sat_add_u64 t.accepted w.accepted ≡ t.accepted + w.accepted = ground arith in
    let dc : sat_add_u64 t.completed w.completed ≡ t.completed + w.completed = ground arith in
    let ih =
      wait-sums cs
        (record {
          accepted = sat_add_u64 t.accepted w.accepted;
          completed = sat_add_u64 t.completed w.completed;
        })
        (omega (arith, da)) (omega (arith, dc)) in
    (omega (arith, da, ih.0), omega (arith, dc, ih.1))

accepted-le :
    (hs : List History)
    → all_connects hs < u64_mod
    → sum_accepted (map report_of hs) ≤ all_connects hs
unfolding sum_accepted
accepted-le [] x = omega arith
accepted-le (none ∷ hs) x = accepted-le hs x
accepted-le (some (n, es) ∷ hs) x =
    omega (arith, run-exact n es (omega arith), run-tasks n es, accepted-le hs (omega arith))

completed-le :
    (hs : List History)
    → all_connects hs < u64_mod
    → sum_completed (map report_of hs) ≤ sum_accepted (map report_of hs)
unfolding sum_accepted sum_completed
completed-le [] x = omega arith
completed-le (none ∷ hs) x = completed-le hs x
completed-le (some (n, es) ∷ hs) x =
    omega (arith, run-exact n es (omega arith), completed-le hs (omega arith))

sums-eq_iff :
    (hs : List History)
    → all_connects hs < u64_mod
    → (sum_accepted (map report_of hs) ≡ sum_completed (map report_of hs)) ↔ All IsDrained hs
unfolding sum_accepted sum_completed
sums-eq_iff [] x = (λ e. tt, λ a. refl)
sums-eq_iff (none ∷ hs) x = let ih = sums-eq_iff hs x in (λ e. (tt, ih.0 e), λ a. ih.1 a.1)
sums-eq_iff (some (n, es) ∷ hs) x =
    let q = run-exact n es (omega arith) in
    let l = completed-le hs (omega arith) in
    let ih = sums-eq_iff hs (omega arith) in
    (
      λ e. (omega (arith, q, l, e), ih.0 (omega (arith, q, l, e))),
      λ a. omega (arith, q, a.0, ih.1 a.1),
    )

-- Whatever the workers have been through, if fewer than 2^64 connections have come to them in all, the
-- process exits with 0 exactly if every handler of every worker has returned, where workers whose
-- thread panicked do not count.
pub exit_code-wait :
    (hs : List History)
    → all_connects hs < u64_mod
    → (exit_code (wait (map report_of hs) default_counts) ≡ 0) ↔ All IsDrained hs
exit_code-wait hs few =
    let a = accepted-le hs few in
    let c = completed-le hs few in
    let s = wait-sums (map report_of hs) default_counts (omega (arith, a)) (omega (arith, a, c)) in
    let q = sums-eq_iff hs few in
    (λ e. q.0 (ground (arith, s.0, s.1)), λ x. ground (arith, s.0, s.1, q.1 x))

-- The two backends report the same, if the sums fit 64 bits.
pub wait_wrapping-wait :
    (cs : List (Option WorkerCounts)) (t : WorkerCounts)
    → t.accepted + sum_accepted cs < u64_mod
    → t.completed + sum_completed cs < u64_mod
    → wait_wrapping cs t ≡ wait cs t
unfolding wait wait_wrapping sum_accepted sum_completed
wait_wrapping-wait [] t a c = refl
wait_wrapping-wait (none ∷ cs) t a c =
    let sa : sat_add_u64 t.accepted 0 ≡ t.accepted = ground arith in
    let sc : sat_add_u64 t.completed 0 ≡ t.completed = ground arith in
    rw (sa, sc) (wait_wrapping-wait cs t a c)
wait_wrapping-wait (some w ∷ cs) t a c =
    let pa : (t.accepted + w.accepted) % u64_mod ≡ sat_add_u64 t.accepted w.accepted =
      ground arith in
    let pc : (t.completed + w.completed) % u64_mod ≡ sat_add_u64 t.completed w.completed =
      ground arith in
    let sa : sat_add_u64 t.accepted w.accepted ≡ t.accepted + w.accepted = ground arith in
    let sc : sat_add_u64 t.completed w.completed ≡ t.completed + w.completed = ground arith in
    let counts = λ (x y : ℕ). wait_wrapping cs (record { accepted = x; completed = y }) in
    ap (λ x. counts x ((t.completed + w.completed) % u64_mod)) pa
    ∙ ap (counts (sat_add_u64 t.accepted w.accepted)) pc
    ∙ wait_wrapping-wait cs
        (record {
          accepted = sat_add_u64 t.accepted w.accepted;
          completed = sat_add_u64 t.completed w.completed;
        })
        (omega (arith, sa)) (omega (arith, sc))
