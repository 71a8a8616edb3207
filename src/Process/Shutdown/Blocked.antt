-- ===== src/Process/Shutdown/Blocked.antt =====
-- Where the shutdown of crates/conduit/src/main.rs can stand still.
use ferroxy.Prelude.{
  ◌≡◌, ◌≢◌, refl, ap, ◌∙◌, subst, true, false, Bool-cases, List, [], ◌∷◌, arith, length, inl, inr,
}
use ferroxy.Process.Shutdown.{
  Thread, http, reload, signal, Spawned, Op, set_flag, join, Threads, alive, ended, Event,
  installed, takes_hup, takes_term, stores, ends, main_acts, step, Reached, act,
}
use ferroxy.Process.Shutdown.Flags.{Ready, Reached-Ready}
use ferroxy.Process.Shutdown.Turns.{Due, storing_weight}

-- The main thread is at its end, or waits for a thread that waits for a signal.
pub data Blocked (s : Threads) : Type 0 where
  finished : s.ops ≡ [] → Blocked s
  awaits_stop : (ops : List Op) → s.ops ≡ join http ∷ ops → s.stop http ≡ false → Blocked s
  awaits_hup :
      (ops : List Op)
      → s.ops ≡ join reload ∷ ops
      → s.life reload ≡ alive
      → s.hup_pending ≡ false
      → Blocked s
  awaits_term :
      (ops : List Op)
      → s.ops ≡ join signal ∷ ops
      → s.life signal ≡ alive
      → s.term_pending ≡ false
      → Blocked s

-- No thread has anything to do.
abbrev pub Settled : Spawned → Threads → Type 0
Settled sp s = (e : Event) → Due s e → step sp s e ≡ s

module _ (sp : Spawned) (s : Threads) (settled : Settled sp s) where
  main_moved : (op : Op) (ops : List Op) → s.ops ≡ op ∷ ops → act s (op ∷ ops) ≡ s
  unfolding step
  main_moved op ops e = subst (λ (os : List Op). act s os ≡ s) e (settled main_acts tt)

  not_set : (t : Thread) (ops : List Op) → s.ops ≡ set_flag t ∷ ops → ⊥
  unfolding act
  not_set t ops e =
      let m : ops ≡ s.ops = ap (λ (x : Threads). x.ops) (main_moved (set_flag t) ops e) in
      omega (arith, ap (length {A = Op}) (m ∙ e))

  not_ended : (t : Thread) (ops : List Op) → s.ops ≡ join t ∷ ops → s.life t ≢ ended
  unfolding act
  not_ended t ops e l =
      let m : act s (join t ∷ ops) ≡ s = main_moved (join t) ops e in
      let k : ops ≡ s.ops = rw l at (ap (λ (x : Threads). x.ops) m) in
      omega (arith, ap (length {A = Op}) (k ∙ e))

  -- A thread that serves, with its flag set, is not waited for.
  not_plane :
      (t : Thread) (ops : List Op)
      → s.ops ≡ join t ∷ ops
      → t ≢ reload
      → t ≢ signal
      → s.stop t ≢ true
  unfolding step
  not_plane reload ops e r q h = r refl
  not_plane signal ops e r q h = q refl
  not_plane t ops e r q h =
      let m : (step sp s (ends t)).life t ≡ s.life t =
        ap (λ (x : Threads). x.life t) (settled (ends t) h) in
      ground (arith, not_ended t ops e)

  reload_waits :
      (ops : List Op)
      → s.ops ≡ join reload ∷ ops
      → (s.life reload ≡ alive) × (s.hup_pending ≡ false)
  unfolding step
  reload_waits ops e =
      let i : (step sp s (installed reload true)).life reload ≡ s.life reload =
        ap (λ (x : Threads). x.life reload) (settled (installed reload true) tt) in
      let p : (step sp s takes_hup).hup_pending ≡ s.hup_pending =
        ap (λ (x : Threads). x.hup_pending) (settled takes_hup tt) in
      ground (arith, not_ended reload ops e)

  signal_waits :
      (ops : List Op)
      → s.ops ≡ join signal ∷ ops
      → (s.life signal ≡ alive) × (s.term_pending ≡ false)
  unfolding step
  signal_waits ops e =
      let i : (step sp s (installed signal true)).life signal ≡ s.life signal =
        ap (λ (x : Threads). x.life signal) (settled (installed signal true) tt) in
      let p : (step sp s takes_term).term_pending ≡ s.term_pending =
        ap (λ (x : Threads). x.term_pending) (settled takes_term tt) in
      let l : (step sp s stores).life signal ≡ s.life signal =
        ap (λ (x : Threads). x.life signal) (settled stores tt) in
      let w : storing_weight (step sp s stores).storing ≡ storing_weight s.storing =
        ap (λ (x : Threads). storing_weight x.storing) (settled stores tt) in
      ground (arith, not_ended signal ops e)

  join_waits :
      (t : Thread) (ops : List Op) → s.ops ≡ join t ∷ ops → Ready s.stop (join t ∷ ops) → Blocked s
  join_waits http ops e r = elim (Bool-cases (s.stop http)) [
    | inl h ↦ absurd (not_plane http ops e (cc) (cc) h)
    | inr h ↦ awaits_stop ops e h
  ]
  join_waits reload ops e r = let (l, p) = reload_waits ops e in awaits_hup ops e l p
  join_waits signal ops e r = let (l, p) = signal_waits ops e in awaits_term ops e l p
  join_waits t ops e r = absurd (not_plane t ops e (cc) (cc) r.0)

  Blocked-ops : (ops : List Op) → s.ops ≡ ops → Ready s.stop ops → Blocked s
  Blocked-ops [] e r = finished e
  Blocked-ops (set_flag t ∷ ops) e r = absurd (not_set t ops e)
  Blocked-ops (join t ∷ ops) e r = join_waits t ops e r

-- Where no thread can move, the main thread has come to its end, or waits for the HTTP workers before
-- any stop of them, for the thread of the reloads without a pending SIGHUP, or for the signal thread
-- without a pending signal.
pub Settled-Blocked : (sp : Spawned) (s : Threads) → Reached sp s → Settled sp s → Blocked s
Settled-Blocked sp s r settled = Blocked-ops sp s settled s.ops refl (Reached-Ready sp s r)
