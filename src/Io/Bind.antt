-- ===== src/Io/Bind.antt =====
-- `ServeSpec`, `BindError` and the binding loop of `serve` in crates/conduit-io. `bind addr` is `bind(2)` and
-- `listen(2)` with the resulting `local_addr`, at one call of each; a listener is its local address.
pub mod Shards
mod Tests
use ferroxy.Prelude.{
  ℕ, zero, suc, ◌+◌, List, [], ◌∷◌, ◌++◌, Option, none, some, map, replicate, is_empty, from_secs,
  from_millis, if◌then◌else◌, Bool, true, false,
}
use ferroxy.Prelude.Text.{Text}
use ferroxy.Prelude.Result.{Result, ok, err, ◌>>=◌, ok_or}

pub record ServeSpec : Type 0 where
  pub listeners : List Text
  pub workers : ℕ
  pub cpu_affinity : Bool
  pub shutdown_deadline : ℕ
  pub tcp_nodelay : Bool
  pub backlog : ℕ
  pub uring_entries : ℕ
  pub poll_interval : ℕ

abbrev pub new : List Text → ℕ → ServeSpec
new listeners workers = record {
  listeners = listeners;
  workers = workers;
  cpu_affinity = true;
  shutdown_deadline = from_secs 30;
  tcp_nodelay = true;
  backlog = 1024;
  uring_entries = 1024;
  poll_interval = from_millis 50;
}

pub data BindError : Type 0 where
  no_listeners : BindError
  bind_failed : Text → BindError
  thread_spawn tokio_backend_unimplemented : BindError

-- The listeners of each worker, and the addresses that are bound.
pub record Bound : Type 0 where
  pub per_worker : List (List Text)
  pub bound : List Text

-- The call of `bind` with a number: the operating system may answer each call differently.
module _ (bind : ℕ → Text → Option Text) where
  -- `per_worker[0].push` and the loop over the other slots, from the call `k` on. Each slot gets the
  -- resolved address with its listener.
  unfoldable pub bind_rest : ℕ → Text → List (List Text) → Result BindError (List (List Text))
  bind_rest k resolved [] = ok []
  bind_rest k resolved (slot ∷ slots) = do
    l ← ok_or (bind k resolved) (bind_failed resolved)
    slots' ← bind_rest (k + 1) resolved slots
    ok ((slot ++ resolved ∷ []) ∷ slots')

  abbrev bind_first : ℕ → Text → List (List Text) → Result BindError (List (List Text))
  bind_first k resolved [] = ok []
  bind_first k resolved (slot ∷ slots) = do
    slots' ← bind_rest k resolved slots
    ok ((slot ++ resolved ∷ []) ∷ slots')

  -- The loop over the listeners; every listener takes at most `stride` calls.
  unfoldable pub bind_all : ℕ → ℕ → List Text → Bound → Result BindError Bound
  unfolding bind_rest
  bind_all stride k [] b = ok b
  bind_all stride k (addr ∷ addrs) b = do
    resolved ← ok_or (bind k addr) (bind_failed addr)
    per_worker ← bind_first (k + 1) resolved b.per_worker
    bind_all stride (k + stride) addrs
        (record { per_worker = per_worker; bound = b.bound ++ resolved ∷ [] })

  -- `serve` up to the start of the threads.
  unfoldable pub serve_bound : ServeSpec → Result BindError Bound
  unfolding bind_all
  serve_bound spec =
      if is_empty spec.listeners
      then err no_listeners
      else bind_all spec.workers 0 spec.listeners
          (record { per_worker = replicate spec.workers []; bound = [] })
