-- ===== src/Process/Shutdown.antt =====
-- The end of the process, crates/conduit/src/main.rs: the program of the main thread behind start-up, the
-- flags and the threads that it joins, and the two threads that wait for signals. The threads take
-- turns in any order. A thread that was not spawned counts as ended. `Signals` remembers that a
-- signal has come, not how often; a signal from before `Signals::new` is left out.
pub mod Joined
pub mod Flags
pub mod Reload
pub mod Turns
pub mod Blocked
pub mod Ending
mod Tests
use ferroxy.Prelude.{
  ℕ, ◌+◌, Bool, true, false, ◌&&◌, List, [], ◌∷◌, ◌++◌, Option, none, some, if◌then◌else◌,
}
use mathlib.Core.Logic.{ite}

-- The threads that the main thread joins; `http` stands for the workers of `conduit_io::Server`.
pub data Thread : Type 0 where
  http https h3 admin health reload signal : Thread

pub Thread-discrete : Discrete Thread
Thread-discrete = hlevel

-- The threads that there may be, or not.
pub record Spawned : Type 0 where
  pub has_http : Bool
  pub has_https : Bool
  pub has_h3 : Bool
  pub has_admin : Bool
  pub has_health : Bool

-- A thread for signals starts before it has called `Signals::new`.
pub data Life : Type 0 where
  starting alive ended : Life

-- A store of `true` into the flag of a thread, or the wait for its end.
pub data Op : Type 0 where
  set_flag : Thread → Op
  join : Thread → Op

-- `stop t` is the flag that ends the thread `t`, `storing` what the signal thread has yet to store once it
-- has begun, `ops` what the main thread has yet to do, and `reloads` counts the reloads.
pub record Threads : Type 0 where
  pub life : Thread → Life
  pub stop : Thread → Bool
  pub hup_pending : Bool
  pub term_pending : Bool
  pub storing : Option (List Thread)
  pub reloads : ℕ
  pub ops : List Op

abbrev pub when {ℓ} : {A : Type ℓ} → Bool → List A → List A
when true xs = xs
when false xs = []

abbrev pub spawned : Spawned → Thread → Bool
spawned sp http = sp.has_http
spawned sp https = sp.has_https
spawned sp h3 = sp.has_h3
spawned sp admin = sp.has_admin
spawned sp health = sp.has_health
spawned sp reload = true
spawned sp signal = true

abbrev pub join_background : Spawned → List Op
join_background sp =
    set_flag reload ∷ join reload ∷ set_flag health ∷ when sp.has_health (join health ∷ [])

abbrev pub join_signal : List Op
join_signal = set_flag signal ∷ join signal ∷ []

abbrev pub join_h3 : Spawned → List Op
join_h3 sp = when sp.has_h3 (set_flag h3 ∷ join h3 ∷ []) ++ join_signal

abbrev pub join_https : Spawned → List Op
join_https sp = when sp.has_https (set_flag https ∷ join https ∷ []) ++ join_h3 sp

abbrev pub join_aux_threads : Spawned → List Op
join_aux_threads sp = set_flag admin ∷ (when sp.has_admin (join admin ∷ []) ++ join_https sp)

-- The main thread from `server.wait()` on.
abbrev pub program : Spawned → List Op
program sp = when sp.has_http (join http ∷ []) ++ (join_background sp ++ join_aux_threads sp)

-- The closure that `spawn_signal_thread` hands over.
abbrev pub on_signal : Spawned → List Thread
on_signal sp =
    when sp.has_http (http ∷ [])
    ++ (when sp.has_https (https ∷ []) ++ (when sp.has_h3 (h3 ∷ []) ++ admin ∷ []))

abbrev pub first_life : Spawned → Thread → Life
first_life sp reload = starting
first_life sp signal = starting
first_life sp t = if spawned sp t then alive else ended

abbrev pub begin : Spawned → Threads
begin sp = record {
  life = first_life sp;
  stop = λ t. false;
  hup_pending = false;
  term_pending = false;
  storing = none;
  reloads = 0;
  ops = program sp;
}

-- A signal comes; `Signals::new` succeeds or fails; a thread for signals takes one, or stores the next
-- flag; a thread that serves ends, on its flag or by an error; the main thread goes on.
pub data Event : Type 0 where
  sighup sigterm : Event
  installed : Thread → Bool → Event
  takes_hup takes_term stores : Event
  ends : Thread → Event
  main_acts : Event

abbrev pub is_alive : Life → Bool
is_alive starting = false
is_alive alive = true
is_alive ended = false

abbrev pub update {ℓ} : {A : Type ℓ} → (Thread → A) → Thread → A → Thread → A
update f t a u = ite (Thread-discrete u t) a (f u)

abbrev pub with_life : Threads → Thread → Life → Threads
with_life s t l = record s { life = update s.life t l }

abbrev pub with_stop : Threads → Thread → Threads
with_stop s t = record s { stop = update s.stop t true }

abbrev pub install : Threads → Thread → Life → Bool → Threads
install s t starting works = with_life s t (if works then alive else ended)
install s t alive works = s
install s t ended works = s

-- `installed` and `ends` are for threads of their own kinds; others stay as they are.
abbrev pub installs : Threads → Thread → Bool → Threads
installs s reload works = install s reload (s.life reload) works
installs s signal works = install s signal (s.life signal) works
installs s t works = s

abbrev pub has_ended : Life → Bool
has_ended starting = false
has_ended alive = false
has_ended ended = true

abbrev pub end_plane : Threads → Thread → Threads
end_plane s t = if has_ended (s.life t) then s else with_life s t ended

abbrev pub ends_by_itself : Threads → Thread → Threads
ends_by_itself s reload = s
ends_by_itself s signal = s
ends_by_itself s t = end_plane s t

-- A round of the loop of `install_reload_handler`.
unfoldable pub install_reload_handler : Threads → Threads
install_reload_handler s =
    if is_alive (s.life reload) && s.hup_pending
    then (if s.stop reload
        then record s { hup_pending = false; life = update s.life reload ended }
        else record s { hup_pending = false; reloads = s.reloads + 1 })
    else s

-- `install_signal_handler` gets its signal: it returns if its parent is done, and else calls `on_signal`.
abbrev get_signal : Spawned → Threads → Option (List Thread) → Threads
get_signal sp s none =
    if s.stop signal
    then record s { term_pending = false; life = update s.life signal ended }
    else record s { term_pending = false; storing = some (on_signal sp) }
get_signal sp s (some ts) = s

unfoldable pub install_signal_handler : Spawned → Threads → Threads
install_signal_handler sp s =
    if is_alive (s.life signal) && s.term_pending then get_signal sp s s.storing else s

abbrev store_next : Threads → Option (List Thread) → Threads
store_next s none = s
store_next s (some []) = with_life s signal ended
store_next s (some (t ∷ ts)) = record s { storing = some ts; stop = update s.stop t true }

abbrev join_next : Threads → Thread → List Op → Life → Threads
join_next s t ops ended = record s { ops = ops }
join_next s t ops starting = s
join_next s t ops alive = s

unfoldable pub act : Threads → List Op → Threads
act s [] = s
act s (set_flag t ∷ ops) = record s { ops = ops; stop = update s.stop t true }
act s (join t ∷ ops) = join_next s t ops (s.life t)

unfoldable pub step : Spawned → Threads → Event → Threads
unfolding install_reload_handler install_signal_handler act
step sp s sighup = if is_alive (s.life reload) then record s { hup_pending = true } else s
step sp s sigterm = if is_alive (s.life signal) then record s { term_pending = true } else s
step sp s (installed t works) = installs s t works
step sp s takes_hup = install_reload_handler s
step sp s takes_term = install_signal_handler sp s
step sp s stores = if is_alive (s.life signal) then store_next s s.storing else s
step sp s (ends t) = ends_by_itself s t
step sp s main_acts = act s s.ops

unfoldable pub steps : Spawned → Threads → List Event → Threads
unfolding step
steps sp s [] = s
steps sp s (e ∷ es) = steps sp (step sp s e) es

-- The states that the threads can be in.
pub data Reached (sp : Spawned) : Threads → Type 0 where
  begun : Reached sp (begin sp)
  later : (s : Threads) (e : Event) → Reached sp s → Reached sp (step sp s e)
