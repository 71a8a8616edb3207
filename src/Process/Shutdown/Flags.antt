-- ===== src/Process/Shutdown/Flags.antt =====
-- The flags that the main thread of crates/conduit/src/main.rs sets before it joins a thread.
use ferroxy.Prelude.{◌≡◌, refl, subst, sym, ◌++◌, Bool, true, false, List, [], ◌∷◌, arith}
use ferroxy.Process.Shutdown.{
  Thread, http, https, h3, admin, health, reload, signal, Spawned, Op, set_flag, join, Threads,
  Life, ended, join_next, when, join_signal, join_h3, join_https, join_aux_threads, join_background,
  Event, sighup, sigterm, installed, takes_hup, takes_term, stores, ends, main_acts, step, Reached,
  begun, later, act, update, installs, ends_by_itself, program,
}
use ferroxy.Process.Shutdown.Joined.{ops-step}

-- A program for the main thread that joins no thread before its flag is set, but `http`, whose flag only
-- the signal thread sets.
abbrev pub Ready : (Thread → Bool) → List Op → Type 0
Ready stop [] = Unit {0}
Ready stop (set_flag t ∷ ops) = Ready (update stop t true) ops
Ready stop (join http ∷ ops) = Ready stop ops
Ready stop (join t ∷ ops) = (stop t ≡ true) × Ready stop ops

stop-installs : (s : Threads) (t : Thread) (works : Bool) → (installs s t works).stop ≡ s.stop
stop-installs s reload works = ground arith
stop-installs s signal works = ground arith
stop-installs s t works = refl

stop-ends : (s : Threads) (t : Thread) → (ends_by_itself s t).stop ≡ s.stop
stop-ends s reload = refl
stop-ends s signal = refl
stop-ends s t = ground arith

pub stays_stopped :
    (sp : Spawned) (s : Threads) (e : Event) (t : Thread)
    → s.stop t ≡ true
    → (step sp s e).stop t ≡ true
unfolding step
stays_stopped sp s (installed u works) t h = rw (stop-installs s u works) h
stays_stopped sp s (ends u) t h = rw (stop-ends s u) h
stays_stopped sp s sighup t h = ground arith
stays_stopped sp s sigterm t h = ground arith
stays_stopped sp s takes_hup t h = ground arith
stays_stopped sp s takes_term t h = ground arith
stays_stopped sp s stores t h = ground arith
stays_stopped sp s main_acts t h = ground arith

pub update_self : (f : Thread → Bool) (t : Thread) → update f t true t ≡ true
update_self f t = ground arith

pub Ready-mono :
    (f g : Thread → Bool) (ops : List Op)
    → ((t : Thread) → f t ≡ true → g t ≡ true)
    → Ready f ops
    → Ready g ops
Ready-mono f g [] le r = tt
Ready-mono f g (set_flag t ∷ ops) le r =
    Ready-mono (update f t true) (update g t true) ops (λ u h. ground (arith, le u)) r
Ready-mono f g (join http ∷ ops) le r = Ready-mono f g ops le r
Ready-mono f g (join t ∷ ops) le r = (le _ r.0, Ready-mono f g ops le r.1)

pub Ready-tail :
    (f : Thread → Bool) (t : Thread) (ops : List Op) → Ready f (join t ∷ ops) → Ready f ops
Ready-tail f http ops r = r
Ready-tail f t ops r = r.1

join_next-Ready :
    (s : Threads) (t : Thread) (ops : List Op) (l : Life)
    → s.ops ≡ join t ∷ ops
    → Ready s.stop (join t ∷ ops)
    → Ready (join_next s t ops l).stop (join_next s t ops l).ops
join_next-Ready s t ops ended e r = Ready-tail s.stop t ops r
join_next-Ready s t ops l e r = subst (Ready s.stop) (sym e) r

-- A stage of the program: the flag of a thread is set, and the thread is joined if it was spawned.
stage :
    (f : Thread → Bool) (t : Thread) (b : Bool) (ops : List Op)
    → ((g : Thread → Bool) → Ready g ops)
    → Ready f (set_flag t ∷ (when b (join t ∷ []) ++ ops))
stage f http true ops r = r _
stage f t true ops r = (update_self f _, r _)
stage f t false ops r = r _

optional :
    (f : Thread → Bool) (t : Thread) (b : Bool) (ops : List Op)
    → ((g : Thread → Bool) → Ready g ops)
    → Ready f (when b (set_flag t ∷ join t ∷ []) ++ ops)
optional f t true ops r = stage f t true ops r
optional f t false ops r = r f

http_first :
    (f : Thread → Bool) (b : Bool) (ops : List Op)
    → Ready f ops
    → Ready f (when b (join http ∷ []) ++ ops)
http_first f true ops r = r
http_first f false ops r = r

act-Ready :
    (s : Threads) (ops : List Op)
    → s.ops ≡ ops
    → Ready s.stop ops
    → Ready (act s ops).stop (act s ops).ops
unfolding act
act-Ready s [] e r = rw e r
act-Ready s (set_flag t ∷ ops) e r = r
act-Ready s (join t ∷ ops) e r = join_next-Ready s t ops (s.life t) e r

begin-Ready : (sp : Spawned) → Ready (λ t. false) (program sp)
begin-Ready sp =
    let signal_ready = λ (f : Thread → Bool). stage f signal true [] (λ g. tt) in
    let h3_ready = λ (f : Thread → Bool). optional f h3 sp.has_h3 join_signal signal_ready in
    let https_ready = λ (f : Thread → Bool). optional f https sp.has_https (join_h3 sp) h3_ready in
    let admin_ready =
      λ (f : Thread → Bool). stage f admin sp.has_admin (join_https sp) https_ready in
    let health_ready =
      λ (f : Thread → Bool). stage f health sp.has_health (join_aux_threads sp) admin_ready in
    http_first (λ t. false) sp.has_http (join_background sp ++ join_aux_threads sp)
      (stage (λ t. false) reload true
        (set_flag health ∷ (when sp.has_health (join health ∷ []) ++ join_aux_threads sp))
        health_ready)

step-Ready :
    (sp : Spawned) (s : Threads) (e : Event)
    → Ready s.stop s.ops
    → Ready (step sp s e).stop (step sp s e).ops
step-Ready sp s main_acts r = unfold step in act-Ready s s.ops refl r
step-Ready sp s e r =
    rw (ops-step sp s e refl) (Ready-mono s.stop (step sp s e).stop s.ops (stays_stopped sp s e) r)

pub Reached-Ready : (sp : Spawned) (s : Threads) → Reached sp s → Ready s.stop s.ops
Reached-Ready sp _ begun = begin-Ready sp
Reached-Ready sp _ (later s e r) = step-Ready sp s e (Reached-Ready sp s r)
