-- ===== src/Process/Shutdown/Reload.antt =====
-- The thread of the reloads in crates/conduit/src/main.rs, which reads its flag only after a SIGHUP.
use ferroxy.Prelude.{◌≡◌, ◌≢◌, refl, ◌∙◌, true, false, List, [], ◌∷◌, All, arith}
use ferroxy.Process.Shutdown.{
  reload, signal, Thread-discrete, Spawned, Op, set_flag, join, Threads, alive, Event, sighup,
  sigterm, installed, takes_hup, takes_term, stores, ends, main_acts, step, steps, act, begin,
  program,
}
use ferroxy.Process.Shutdown.Joined.{joins, is_main, ops-step}
use ferroxy.Process.Shutdown.Flags.{stays_stopped}

-- The thread waits for a SIGHUP, and the main thread has yet to join it.
record Waits (s : Threads) : Type 0 where
  lives : s.life reload ≡ alive
  quiet : s.hup_pending ≡ false
  awaited : joins s.ops reload ≡ true

act-Waits : (s : Threads) (ops : List Op) → s.ops ≡ ops → Waits s → Waits (act s ops)
unfolding act Thread-discrete
act-Waits s [] e w = w
act-Waits s (set_flag t ∷ ops) e w = ground arith
act-Waits s (join t ∷ ops) e w = ground arith

step-Waits : (sp : Spawned) (s : Threads) (e : Event) → e ≢ sighup → Waits s → Waits (step sp s e)
unfolding step Thread-discrete
step-Waits sp s sighup n w = absurd (n refl)
step-Waits sp s sigterm n w = ground arith
step-Waits sp s (installed reload works) n w = ground arith
step-Waits sp s (installed signal works) n w = ground arith
step-Waits sp s (installed t works) n w = w
step-Waits sp s takes_hup n w = ground arith
step-Waits sp s takes_term n w = ground arith
step-Waits sp s stores n w = ground arith
step-Waits sp s (ends reload) n w = w
step-Waits sp s (ends signal) n w = w
step-Waits sp s (ends t) n w = ground arith
step-Waits sp s main_acts n w = act-Waits s s.ops refl w

steps-Waits :
    (sp : Spawned) (s : Threads) (es : List Event)
    → All (λ (e : Event). e ≢ sighup) es
    → Waits s
    → Waits (steps sp s es)
unfolding steps
steps-Waits sp s [] a w = w
steps-Waits sp s (e ∷ es) (n, a) w = steps-Waits sp (step sp s e) es a (step-Waits sp s e n w)

begin-Waits : (sp : Spawned) → Waits (step sp (begin sp) (installed reload true))
unfolding step Thread-discrete
begin-Waits sp = ground arith

-- Once the handler of SIGHUP is installed, the main thread does not come to its end without a SIGHUP,
-- whatever else happens.
pub steps-needs_hup :
    (sp : Spawned) (es : List Event)
    → All (λ (e : Event). e ≢ sighup) es
    → (steps sp (begin sp) (installed reload true ∷ es)).ops ≢ []
unfolding steps
steps-needs_hup sp es a over =
    let w = steps-Waits sp _ es a (begin-Waits sp) in ground (arith, w.awaited)

kept_reloads :
    (sp : Spawned) (s : Threads) (e : Event)
    → s.stop reload ≡ true
    → (step sp s e).reloads ≡ s.reloads
unfolding step
kept_reloads sp s sighup h = ground arith
kept_reloads sp s sigterm h = ground arith
kept_reloads sp s (installed reload works) h = ground arith
kept_reloads sp s (installed signal works) h = ground arith
kept_reloads sp s (installed t works) h = refl
kept_reloads sp s takes_hup h = ground arith
kept_reloads sp s takes_term h = ground arith
kept_reloads sp s stores h = ground arith
kept_reloads sp s (ends reload) h = refl
kept_reloads sp s (ends signal) h = refl
kept_reloads sp s (ends t) h = ground arith
kept_reloads sp s main_acts h = ground arith

pub reloads-steps :
    (sp : Spawned) (s : Threads) (es : List Event)
    → s.stop reload ≡ true
    → (steps sp s es).reloads ≡ s.reloads
unfolding steps
reloads-steps sp s [] h = refl
reloads-steps sp s (e ∷ es) h =
    reloads-steps sp (step sp s e) es (stays_stopped sp s e reload h) ∙ kept_reloads sp s e h

ops-steps :
    (sp : Spawned) (s : Threads) (es : List Event)
    → All (λ (e : Event). is_main e ≡ false) es
    → (steps sp s es).ops ≡ s.ops
unfolding steps
ops-steps sp s [] a = refl
ops-steps sp s (e ∷ es) (n, a) = ops-steps sp (step sp s e) es a ∙ ops-step sp s e n

-- The first step of the main thread, where no HTTP plane runs.
first_step :
    (sp : Spawned) (s : Threads)
    → sp.has_http ≡ false
    → s.ops ≡ program sp
    → ((step sp s main_acts).stop reload ≡ true) × ((step sp s main_acts).reloads ≡ s.reloads)
unfolding step Thread-discrete
first_step sp s h e = ground arith

-- Where no HTTP plane runs, nothing is reloaded once the main thread has made its first step, and
-- whatever happened before.
pub reloads-steps_no_http :
    (sp : Spawned) (before after : List Event)
    → sp.has_http ≡ false
    → All (λ (e : Event). is_main e ≡ false) before
    → (steps sp (steps sp (begin sp) before) (main_acts ∷ after)).reloads
      ≡ (steps sp (begin sp) before).reloads
reloads-steps_no_http sp before after h a =
    let s = steps sp (begin sp) before in
    let (stopped, same) = first_step sp s h (ops-steps sp (begin sp) before a) in
    unfold steps in (reloads-steps sp (step sp s main_acts) after stopped ∙ same)
