-- ===== src/Process/Shutdown/Tests.antt =====
-- Runs of the shutdown of crates/conduit/src/main.rs.
use ferroxy.Prelude.{◌≡◌, ◌≢◌, refl, true, false, List, [], ◌∷◌, ◌++◌, arith}
use ferroxy.Process.Shutdown.{
  http, https, admin, health, reload, signal, Thread-discrete, Spawned, join, Threads, ended, Event,
  sighup, sigterm, installed, takes_hup, takes_term, stores, ends, main_acts, step, steps, begin,
  Reached, begun, later,
}
use ferroxy.Process.Shutdown.Joined.{Reached-joined}
use ferroxy.Process.Shutdown.Ending.{CanEnd, Reached-CanEnd}
use ferroxy.Process.Shutdown.Blocked.{Blocked, Settled, Settled-Blocked}
use ferroxy.Process.Shutdown.Reload.{steps-needs_hup, reloads-steps_no_http}

abbrev plain : Spawned
plain = record {
  has_http = true;
  has_https = false;
  has_h3 = false;
  has_admin = true;
  has_health = false;
}

abbrev secure : Spawned
secure = record {
  has_http = false;
  has_https = true;
  has_h3 = false;
  has_admin = true;
  has_health = true;
}

-- A SIGTERM, and what follows it up to the flag of the reloads.
abbrev terminated : List Event
terminated =
    installed signal true
    ∷ sigterm
    ∷ takes_term
    ∷ stores
    ∷ stores
    ∷ stores
    ∷ ends http
    ∷ main_acts
    ∷ main_acts
    ∷ main_acts
    ∷ ends admin
    ∷ []

abbrev rest : List Event
rest =
    sighup ∷ takes_hup ∷ main_acts ∷ main_acts ∷ main_acts ∷ main_acts ∷ main_acts ∷ main_acts ∷ []

abbrev over : Threads
over = steps plain (begin plain) (installed reload true ∷ (terminated ++ rest))

-- After a SIGTERM the main thread stands at the join of the thread of the reloads, and a SIGHUP lets it
-- go on to its end.
hangs : (steps plain (begin plain) (installed reload true ∷ terminated)).ops ≢ []
unfolding steps Thread-discrete
hangs = ground arith

ends_after_hup : over.ops ≡ []
unfolding steps Thread-discrete
ends_after_hup = refl

abbrev stuck : Threads
stuck = steps plain (begin plain) (installed reload true ∷ terminated)

stuck-stop : stuck.stop http ≡ true
unfolding steps Thread-discrete
stuck-stop = refl

-- Where only HTTPS is served, a SIGHUP closes HTTPS, with no SIGTERM.
closed_by_hup :
    (steps secure (begin secure) (
      installed reload true
      ∷ installed signal true
      ∷ main_acts
      ∷ sighup
      ∷ takes_hup
      ∷ main_acts
      ∷ main_acts
      ∷ ends health
      ∷ main_acts
      ∷ main_acts
      ∷ ends admin
      ∷ main_acts
      ∷ main_acts
      ∷ ends https
      ∷ main_acts
      ∷ main_acts
      ∷ [])).ops
    ≡ join signal ∷ []
unfolding steps Thread-discrete
closed_by_hup = refl

steps-Reached :
    (sp : Spawned) (s : Threads) (es : List Event) → Reached sp s → Reached sp (steps sp s es)
unfolding steps
steps-Reached sp s [] r = r
steps-Reached sp s (e ∷ es) r = steps-Reached sp (step sp s e) es (later s e r)

Reached-joined_example : over.life admin ≡ ended
Reached-joined_example =
    Reached-joined plain over (steps-Reached plain _ _ begun) ends_after_hup admin

Reached-CanEnd_example : CanEnd plain stuck
Reached-CanEnd_example =
    Reached-CanEnd plain stuck (steps-Reached plain _ _ begun) (λ j. stuck-stop)

steps-needs_hup_example : (steps plain (begin plain) (installed reload true ∷ terminated)).ops ≢ []
steps-needs_hup_example = steps-needs_hup plain terminated (ground arith)

reloads-steps_no_http_example :
    (steps secure
      (steps secure (begin secure) (installed reload true ∷ []))
      (main_acts ∷ sighup ∷ takes_hup ∷ [])).reloads
    ≡ (steps secure (begin secure) (installed reload true ∷ [])).reloads
reloads-steps_no_http_example =
    reloads-steps_no_http secure (installed reload true ∷ []) (sighup ∷ takes_hup ∷ []) refl
      (refl, tt)

abbrev bare : Spawned
bare = record {
  has_http = false;
  has_https = false;
  has_h3 = false;
  has_admin = false;
  has_health = false;
}

abbrev waiting : Threads
waiting = steps bare (begin bare) (installed reload true ∷ installed signal false ∷ main_acts ∷ [])

waiting-Settled : Settled bare waiting
unfolding steps Thread-discrete
waiting-Settled (installed reload works) d = refl
waiting-Settled (installed signal works) d = refl
waiting-Settled (installed t works) d = refl
waiting-Settled (ends reload) d = refl
waiting-Settled (ends signal) d = refl
waiting-Settled (ends t) d = refl
waiting-Settled takes_hup d = refl
waiting-Settled takes_term d = refl
waiting-Settled stores d = refl
waiting-Settled main_acts d = refl
waiting-Settled sighup d = absurd d
waiting-Settled sigterm d = absurd d

Settled-Blocked_example : Blocked waiting
Settled-Blocked_example =
    Settled-Blocked bare waiting (steps-Reached bare _ _ begun) waiting-Settled
