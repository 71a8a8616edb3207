-- ===== src/Process/Shutdown/Joined.antt =====
-- What the end of crates/conduit/src/main.rs leaves behind.
use ferroxy.Prelude.{◌≡◌, refl, Bool, true, false, List, [], ◌∷◌, arith}
use ferroxy.Process.Shutdown.{
  Thread, http, https, h3, admin, health, reload, signal, Thread-discrete, Spawned, ended, Op,
  set_flag, join, Threads, begin, Event, sighup, sigterm, installed, takes_hup, takes_term, stores,
  ends, main_acts, step, Reached, begun, later, act, installs, ends_by_itself,
}
use mathlib.Core.Logic.{ite}

-- The main thread has yet to join a thread, or to set its flag.
abbrev pub joins : List Op → Thread → Bool
joins [] t = false
joins (set_flag u ∷ ops) t = joins ops t
joins (join u ∷ ops) t = ite (Thread-discrete u t) true (joins ops t)

stays_ended :
    (sp : Spawned) (s : Threads) (e : Event) (t : Thread)
    → s.life t ≡ ended
    → (step sp s e).life t ≡ ended
unfolding step
stays_ended sp s sighup t h = ground arith
stays_ended sp s sigterm t h = ground arith
stays_ended sp s (installed reload b) t h = ground arith
stays_ended sp s (installed signal b) t h = ground arith
stays_ended sp s (installed u b) t h = h
stays_ended sp s takes_hup t h = ground arith
stays_ended sp s takes_term t h = ground arith
stays_ended sp s stores t h = ground arith
stays_ended sp s (ends reload) t h = h
stays_ended sp s (ends signal) t h = h
stays_ended sp s (ends u) t h = ground arith
stays_ended sp s main_acts t h = ground arith

-- Only the main thread works on its own program.
abbrev pub is_main : Event → Bool
is_main main_acts = true
is_main e = false

ops-installs : (s : Threads) (t : Thread) (works : Bool) → (installs s t works).ops ≡ s.ops
ops-installs s reload works = ground arith
ops-installs s signal works = ground arith
ops-installs s t works = refl

ops-ends : (s : Threads) (t : Thread) → (ends_by_itself s t).ops ≡ s.ops
ops-ends s reload = refl
ops-ends s signal = refl
ops-ends s t = ground arith

pub ops-step :
    (sp : Spawned) (s : Threads) (e : Event) → is_main e ≡ false → (step sp s e).ops ≡ s.ops
unfolding step
ops-step sp s sighup h = ground arith
ops-step sp s sigterm h = ground arith
ops-step sp s (installed t works) h = ops-installs s t works
ops-step sp s takes_hup h = ground arith
ops-step sp s takes_term h = ground arith
ops-step sp s stores h = ground arith
ops-step sp s (ends t) h = ops-ends s t
ops-step sp s main_acts h = cc

act_joined :
    (s : Threads) (ops : List Op) (t : Thread)
    → (joins ops t ≡ false → s.life t ≡ ended)
    → joins (act s ops).ops t ≡ false
    → s.ops ≡ ops
    → (act s ops).life t ≡ ended
unfolding act
act_joined s [] t old h e = ground arith
act_joined s (set_flag u ∷ ops) t old h e = ground arith
act_joined s (join u ∷ ops) t old h e = ground arith

-- A thread that the main thread no longer has to join has ended.
Awaited : Threads → Thread → Type 0
Awaited s t = joins s.ops t ≡ false → s.life t ≡ ended

begin-Awaited : (sp : Spawned) (t : Thread) → Awaited (begin sp) t
unfolding Awaited Thread-discrete
begin-Awaited sp http h = ground arith
begin-Awaited sp https h = ground arith
begin-Awaited sp h3 h = ground arith
begin-Awaited sp admin h = ground arith
begin-Awaited sp health h = ground arith
begin-Awaited sp reload h = ground arith
begin-Awaited sp signal h = ground arith

step-Awaited :
    (sp : Spawned) (s : Threads) (e : Event) (t : Thread) → Awaited s t → Awaited (step sp s e) t
unfolding Awaited
step-Awaited sp s main_acts t old = unfold step in λ h. act_joined s s.ops t old h refl
step-Awaited sp s e t old = λ h. stays_ended sp s e t (old (rw (ops-step sp s e refl) at h))

Reached-Awaited : (sp : Spawned) (s : Threads) → Reached sp s → (t : Thread) → Awaited s t
Reached-Awaited sp _ begun t = begin-Awaited sp t
Reached-Awaited sp _ (later s e r) t = step-Awaited sp s e t (Reached-Awaited sp s r t)

-- When the main thread has come to its end, every thread has ended.
pub Reached-joined :
    (sp : Spawned) (s : Threads) → Reached sp s → s.ops ≡ [] → (t : Thread) → s.life t ≡ ended
unfolding Awaited
Reached-joined sp s r over t = Reached-Awaited sp s r t (rw over)
