-- ===== src/Io/Spawn.antt =====
-- The threads that `serve` starts in crates/conduit-io/src/tokio_worker.rs and monoio_worker.rs, and what a worker does
-- before it accepts. `spawn idx` says whether the thread starts.
mod Tests
use ferroxy.Prelude.{
  ℕ, zero, suc, ◌+◌, ◌*◌, ◌%◌, ◌<◌, ◌≡◌, ◌≢◌, refl, sym, ◌∙◌, ap, ◌⊎◌, inl, inr, Bool, true, false,
  Bool-cases, List, [], ◌∷◌, Option, none, some, length, replicate, get_elem?, if◌then◌else◌, arith,
  u64_mod,
}
use ferroxy.Prelude.Text.{Text}
use ferroxy.Prelude.Result.{Result, ok, err}
use ferroxy.Io.Bind.{ServeSpec, BindError, thread_spawn, Bound, serve_bound}
use ferroxy.Io.Bind.Shards.{serve_bound_lem}
use ferroxy.Io.Worker.{WorkerCounts, default_counts}

-- The loop over the workers, from the number `idx` on: their listeners, or the error of the first
-- thread that does not start.
unfoldable pub spawn_workers :
    (ℕ → Bool) → ℕ → List (List Text) → Result BindError (List (ℕ × List Text))
spawn_workers spawn idx [] = ok []
spawn_workers spawn idx (listeners ∷ rest) =
    let later = spawn_workers spawn (idx + 1) rest in
    if spawn idx
    then elim later [ err e ↦ err e | ok ws ↦ ok ((idx, listeners) ∷ ws) ]
    else err thread_spawn

-- `TcpListener::from_std`; a listener that it refuses is skipped.
unfoldable pub usable : (Text → Bool) → List Text → List Text
usable from_std [] = []
usable from_std (l ∷ ls) = let rest = usable from_std ls in if from_std l then l ∷ rest else rest

-- The calls of `setup`: for each listener with tokio, and one in all with monoio.
abbrev pub setups_tokio : (Text → Bool) → List Text → ℕ
setups_tokio from_std ls = length (usable from_std ls)

abbrev pub setups_monoio : ℕ
setups_monoio = 1

-- What the thread of a worker gives back, if its runtime could be built or not.
abbrev pub worker_result : Bool → WorkerCounts → WorkerCounts
worker_result built counts = if built then counts else default_counts

-- `core_affinity::get_core_ids` answers with `ids`, if it does.
abbrev pub cores : ServeSpec → Option (List ℕ) → List ℕ
cores spec none = []
cores spec (some ids) = if spec.cpu_affinity then ids else []

-- The core that the worker `idx` of monoio is pinned to.
unfoldable pub core_of : ServeSpec → Option (List ℕ) → ℕ → Option ℕ
core_of spec ids idx = get_elem? (cores spec ids) idx

-- Workers that have started, with their numbers from `idx` on.
abbrev pub numbered : ℕ → List (List Text) → List (ℕ × List Text)
numbered idx [] = []
numbered idx (ls ∷ rest) = (idx, ls) ∷ numbered (idx + 1) rest

-- Either each worker has its thread, or `serve` fails and some thread did not start.
pub spawn_workers_lem :
    (spawn : ℕ → Bool) (idx : ℕ) (per_worker : List (List Text))
    → (spawn_workers spawn idx per_worker ≡ ok (numbered idx per_worker))
      ⊎ ((spawn_workers spawn idx per_worker ≡ err thread_spawn)
          × ((k : ℕ) × (k < idx + length per_worker) × (spawn k ≡ false)))
unfolding spawn_workers
spawn_workers_lem spawn idx [] = inl refl
spawn_workers_lem spawn idx (ls ∷ rest) = elim (Bool-cases (spawn idx)) [
  | inr dead ↦ inr (rw dead refl, (idx, omega arith, dead))
  | inl lives ↦ elim (spawn_workers_lem spawn (idx + 1) rest) [
    | inl e ↦ inl (rw (lives, e) refl)
    | inr (e, (k, h, dead)) ↦ inr (rw (lives, e) refl, (k, omega arith, dead))
  ]
]

-- The `Server` that `serve` returns: its threads, and the addresses of `local_addrs`.
pub record Started : Type 0 where
  pub threads : List (ℕ × List Text)
  pub local_addrs : List Text

abbrev with_threads : List Text → Result BindError (List (ℕ × List Text)) → Result BindError Started
with_threads bound (err e) = err e
with_threads bound (ok ws) = ok (record { threads = ws; local_addrs = bound })

abbrev then_spawn : (ℕ → Bool) → Result BindError Bound → Result BindError Started
then_spawn spawn (err e) = err e
then_spawn spawn (ok b) = with_threads b.bound (spawn_workers spawn 0 b.per_worker)

unfoldable pub serve : (ℕ → Text → Option Text) → (ℕ → Bool) → ServeSpec → Result BindError Started
unfolding spawn_workers
serve bind spawn spec = then_spawn spawn (serve_bound bind spec)

-- With at least one worker, `serve` fails, or each worker has a thread with a listener on each of the
-- bound addresses, of which there is one for each listener of the specification.
pub serve_lem :
    (bind : ℕ → Text → Option Text) (spawn : ℕ → Bool) (spec : ServeSpec) (n : ℕ)
    → spec.workers ≡ suc n
    → ((e : BindError) × (serve bind spawn spec ≡ err e))
      ⊎ ((all : List Text) × (serve bind spawn spec
            ≡ ok (record { threads = numbered 0 (replicate spec.workers all); local_addrs = all }))
          × (length all ≡ length spec.listeners))
unfolding serve
serve_lem bind spawn spec n w = elim (serve_bound_lem bind spec n w) [
  | inl (e, b) ↦ inl (e, rw b refl)
  | inr (all, b, c) ↦ elim (spawn_workers_lem spawn 0 (replicate spec.workers all)) [
    | inl s ↦ inr (all, rw (b, s) refl, c)
    | inr (s, dead) ↦ inl (thread_spawn, rw (b, s) refl)
  ]
]
