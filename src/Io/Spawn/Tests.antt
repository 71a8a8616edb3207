-- ===== src/Io/Spawn/Tests.antt =====
-- Workers of crates/conduit-io that start, or do not.
use ferroxy.Prelude.{ℕ, ◌≡◌, refl, Bool, true, false, [], ◌∷◌, none, some, replicate, ltb}
use ferroxy.Prelude.Text.{Text, codes}
use ferroxy.Prelude.Result.{err}
use ferroxy.Io.Bind.{ServeSpec, BindError, thread_spawn}
use ferroxy.Io.Bind
use ferroxy.Io.Worker.{default_counts}
use ferroxy.Io.Spawn.{spawn_workers, usable, setups_tokio, worker_result, core_of}

abbrev addr : Text
addr = codes "127.0.0.1:80"

abbrev spec : ServeSpec
spec = Bind.new (addr ∷ addr ∷ []) 3

abbrev first_two : ℕ → Bool
first_two k = ltb k 2

third_fails : spawn_workers first_two 0 (replicate 3 (addr ∷ [])) ≡ err thread_spawn
unfolding spawn_workers
third_fails = refl

one_core_each :
    (core_of spec (some (4 ∷ 5 ∷ [])) 1 ≡ some 5) × (core_of spec (some (4 ∷ 5 ∷ [])) 2 ≡ none)
unfolding core_of
one_core_each = (refl, refl)

two_setups : setups_tokio (λ l. true) spec.listeners ≡ 2
unfolding usable
two_setups = refl

no_runtime : worker_result false (record { accepted = 3; completed = 2 }) ≡ default_counts
no_runtime = refl
