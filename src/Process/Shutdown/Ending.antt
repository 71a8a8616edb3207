-- ===== src/Process/Shutdown/Ending.antt =====
-- The main thread of crates/conduit/src/main.rs can always come to its end.
use ferroxy.Prelude.{
  ◌≡◌, refl, subst, sym, inl, inr, true, false, List, [], ◌∷◌, some, Option-cases, arith,
  if◌then◌else◌,
}
use ferroxy.Process.Shutdown.{
  Thread, http, reload, signal, Spawned, Op, set_flag, join, Threads, Life, starting, alive, ended,
  has_ended, Event, sighup, sigterm, installed, takes_hup, takes_term, stores, ends, main_acts,
  step, act, Reached, update, with_life, install_reload_handler, install_signal_handler,
}
use ferroxy.Process.Shutdown.Joined.{joins}
use ferroxy.Process.Shutdown.Flags.{Ready, Ready-mono, Ready-tail, Reached-Ready}
use ferroxy.Process.Shutdown.Turns.{Due}

-- The main thread can come to its end from a state, by signals and by what the threads do by themselves,
-- where a thread that serves ends on its flag only.
pub data CanEnd (sp : Spawned) : Threads → Type 0 where
  over : (s : Threads) → s.ops ≡ [] → CanEnd sp s
  goes : (s : Threads) (e : Event) → Due s e → CanEnd sp (step sp s e) → CanEnd sp s
  hup : (s : Threads) → CanEnd sp (step sp s sighup) → CanEnd sp s
  term : (s : Threads) → CanEnd sp (step sp s sigterm) → CanEnd sp s

-- The main thread goes on behind a thread that has ended.
behind :
    (sp : Spawned) (s : Threads) (t : Thread) (ops : List Op)
    → s.ops ≡ join t ∷ ops
    → s.life t ≡ ended
    → CanEnd sp (record s { ops = ops })
    → CanEnd sp s
unfolding step act
behind sp s t ops e l c =
    let moved : step sp s main_acts ≡ record s { ops = ops } = rw (e, l) refl in
    goes s main_acts tt (subst (CanEnd sp) (sym moved) c)

life_self : (f : Thread → Life) (t : Thread) (l : Life) → update f t l t ≡ l
life_self f t l = ground arith

-- The rest of the program comes to its end, whatever flags are set besides.
abbrev Onward : Spawned → Threads → List Op → Type 0
Onward sp s ops =
    (s' : Threads)
    → s'.ops ≡ ops
    → ((u : Thread) → s.stop u ≡ true → s'.stop u ≡ true)
    → CanEnd sp s'

-- A thread that serves and whose flag is set.
plane_ends :
    (sp : Spawned) (s : Threads) (t : Thread) (ops : List Op)
    → step sp s (ends t) ≡ (if has_ended (s.life t) then s else with_life s t ended)
    → Due s (ends t)
    → s.ops ≡ join t ∷ ops
    → Onward sp s ops
    → CanEnd sp s
plane_ends sp s t ops st d e next =
    goes s (ends t) d (subst (CanEnd sp) (sym st) (go (s.life t) refl))
  where
    go :
        (l : Life)
        → s.life t ≡ l
        → CanEnd sp (if has_ended (s.life t) then s else with_life s t ended)
    go ended l = rw l (behind sp s t ops e l (next (record s { ops = ops }) refl (λ u h. h)))
    go starting l = rw l (
        behind sp (with_life s t ended) t ops e (life_self s.life t ended)
          (next (record s { life = update s.life t ended; ops = ops }) refl (λ u h. h)))
    go alive l = rw l (
        behind sp (with_life s t ended) t ops e (life_self s.life t ended)
          (next (record s { life = update s.life t ended; ops = ops }) refl (λ u h. h)))

-- The thread of the reloads, once its flag is set: a SIGHUP wakes it up.
reload_ends :
    (sp : Spawned) (s : Threads) (ops : List Op)
    → s.stop reload ≡ true
    → s.ops ≡ join reload ∷ ops
    → Onward sp s ops
    → CanEnd sp s
unfolding step install_reload_handler
reload_ends sp s ops d e next = go (s.life reload) refl
  where
    gone : Threads
    gone = with_life s reload ended

    woken : Threads
    woken = record s { hup_pending = false; life = update s.life reload ended }

    go : (l : Life) → s.life reload ≡ l → CanEnd sp s
    go ended l = behind sp s reload ops e l (next (record s { ops = ops }) refl (λ u h. h))
    go starting l =
        let moved : step sp s (installed reload false) ≡ gone = rw l refl in
        goes s (installed reload false) tt (
          subst (CanEnd sp) (sym moved) (
            behind sp gone reload ops e (life_self s.life reload ended)
              (next (record gone { ops = ops }) refl (λ u h. h))))
    go alive l =
        let pending : step sp s sighup ≡ record s { hup_pending = true } = rw l refl in
        let moved : step sp (record s { hup_pending = true }) takes_hup ≡ woken = rw (l, d) refl in
        hup s (
          subst (CanEnd sp) (sym pending) (
            goes (record s { hup_pending = true }) takes_hup tt
              (subst (CanEnd sp) (sym moved) (
                behind sp woken reload ops e (life_self s.life reload ended)
                  (next (record woken { ops = ops }) refl (λ u h. h))))))

-- The signal thread stores the flags that it has begun with, and ends.
stores_end :
    (sp : Spawned) (ts : List Thread) (s : Threads) (ops : List Op)
    → s.life signal ≡ alive
    → s.storing ≡ some ts
    → s.ops ≡ join signal ∷ ops
    → Onward sp s ops
    → CanEnd sp s
unfolding step
stores_end sp [] s ops l g e next =
    let moved : step sp s stores ≡ with_life s signal ended = rw (l, g) refl in
    goes s stores tt (
      subst (CanEnd sp) (sym moved) (
        behind sp (with_life s signal ended) signal ops e (life_self s.life signal ended)
          (next (record (with_life s signal ended) { ops = ops }) refl (λ u h. h))))
stores_end sp (t ∷ ts) s ops l g e next =
    let s' : Threads = record s { storing = some ts; stop = update s.stop t true } in
    let moved : step sp s stores ≡ s' = rw (l, g) refl in
    goes s stores tt (
      subst (CanEnd sp) (sym moved)
        (stores_end sp ts s' ops l refl e (λ s'' o m. next s'' o (λ u h. m u (ground (arith, h))))))

-- The signal thread, once its flag is set: a SIGTERM wakes it up.
signal_ends :
    (sp : Spawned) (s : Threads) (ops : List Op)
    → s.stop signal ≡ true
    → s.ops ≡ join signal ∷ ops
    → Onward sp s ops
    → CanEnd sp s
unfolding step install_signal_handler
signal_ends sp s ops d e next = go (s.life signal) refl
  where
    gone : Threads
    gone = with_life s signal ended

    woken : Threads
    woken = record s { term_pending = false; life = update s.life signal ended }

    go : (l : Life) → s.life signal ≡ l → CanEnd sp s
    go ended l = behind sp s signal ops e l (next (record s { ops = ops }) refl (λ u h. h))
    go starting l =
        let moved : step sp s (installed signal false) ≡ gone = rw l refl in
        goes s (installed signal false) tt (
          subst (CanEnd sp) (sym moved) (
            behind sp gone signal ops e (life_self s.life signal ended)
              (next (record gone { ops = ops }) refl (λ u h. h))))
    go alive l = elim (Option-cases s.storing) [
      | inr (ts, g) ↦ stores_end sp ts s ops l g e next
      | inl g ↦
          let pending : step sp s sigterm ≡ record s { term_pending = true } = rw l refl in
          let moved : step sp (record s { term_pending = true }) takes_term ≡ woken =
            rw (l, g, d) refl in
          term s (
            subst (CanEnd sp) (sym pending) (
              goes (record s { term_pending = true }) takes_term tt
                (subst (CanEnd sp) (sym moved) (
                  behind sp woken signal ops e (life_self s.life signal ended)
                    (next (record woken { ops = ops }) refl (λ u h. h))))))
    ]

joins-tail : (t : Thread) (ops : List Op) → joins ops http ≡ true → joins (join t ∷ ops) http ≡ true
joins-tail t ops h = ground (arith, h)

ops-CanEnd :
    (sp : Spawned) (ops : List Op) (s : Threads)
    → s.ops ≡ ops
    → Ready s.stop ops
    → (joins ops http ≡ true → s.stop http ≡ true)
    → CanEnd sp s
unfolding step act
ops-CanEnd sp [] s e r w = over s e
ops-CanEnd sp (set_flag t ∷ ops) s e r w =
    let s' : Threads = record s { ops = ops; stop = update s.stop t true } in
    let moved : step sp s main_acts ≡ s' = rw e refl in
    goes s main_acts tt (
      subst (CanEnd sp) (sym moved)
        (ops-CanEnd sp ops s' refl r (λ j. let h = w j in ground (arith, h))))
ops-CanEnd sp (join t ∷ ops) s e r w = joined t e r w λ s' o m.
    ops-CanEnd sp ops s' o (Ready-mono s.stop s'.stop ops m (Ready-tail s.stop t ops r))
      λ j. m http (w (joins-tail t ops j))
  where
    joined :
        (t : Thread)
        → s.ops ≡ join t ∷ ops
        → Ready s.stop (join t ∷ ops)
        → (joins (join t ∷ ops) http ≡ true → s.stop http ≡ true)
        → Onward sp s ops
        → CanEnd sp s
    joined http e r w next = plane_ends sp s http ops refl (w (ground arith)) e next
    joined reload e r w next = reload_ends sp s ops r.0 e next
    joined signal e r w next = signal_ends sp s ops r.0 e next
    joined t e r w next = plane_ends sp s t ops refl r.0 e next

-- From every state that the threads reach, unless the main thread waits for the HTTP workers without
-- their flag, it can come to its end by a SIGHUP, a SIGTERM and what the threads do by themselves,
-- where a thread that serves ends on its flag only.
pub Reached-CanEnd :
    (sp : Spawned) (s : Threads)
    → Reached sp s
    → (joins s.ops http ≡ true → s.stop http ≡ true)
    → CanEnd sp s
Reached-CanEnd sp s r w = ops-CanEnd sp s.ops s refl (Reached-Ready sp s r) w
