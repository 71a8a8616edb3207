-- ===== src/Upstream/Pool/Reach.antt =====
-- The states that an upstream can reach, as sequences of the calls that change it.
use ferroxy.Prelude.{
  ℕ, ◌+◌, ◌<◌, ◌≡◌, refl, ◌∙◌, Bool, List, [], ◌∷◌, Option, none, some, length, get_elem?, set,
  length-set, subst, arith, u64_mod,
}
use ferroxy.Prelude.Checked.{done}
use ferroxy.Upstream.Breaker.{Breaker, BreakerConfig}
use ferroxy.Upstream.Retry.{RetryPolicy}
use ferroxy.Upstream.Pool.{
  Upstream, SocketAddr, new_breakers, with_options, pick_addr, observe_breaker_outcome, observe,
}
use ferroxy.Upstream.Pool.Select.{IsValid, pick_addr_total}

-- A new upstream, and what picks and outcomes make of it in any order: those of requests that run
-- at the same time may be interleaved.
pub data Reached (start : Upstream) : Upstream → Type 0 where
  built : Reached start start
  picked :
      (u u' : Upstream) (now : ℕ) (r : Option (SocketAddr × ℕ))
      → Reached start u
      → pick_addr u now ≡ done (r, u')
      → Reached start u'
  observed :
      (u : Upstream) (idx : Option ℕ) (success : Bool) (now : ℕ)
      → Reached start u
      → Reached start (observe_breaker_outcome u idx success now)

length-new_breakers :
    (cfg : BreakerConfig) (clock : ℕ → ℕ) (i : ℕ) (addrs : List SocketAddr)
    → length (new_breakers cfg clock i addrs) ≡ length addrs
unfolding new_breakers
length-new_breakers cfg clock i [] = refl
length-new_breakers cfg clock i (a ∷ addrs) =
    ground (arith, length-new_breakers cfg clock (i + 1) addrs)

pub with_options-IsValid :
    (retry : RetryPolicy) (addrs : List SocketAddr) (cfg : BreakerConfig) (clock : ℕ → ℕ)
    → length addrs < u64_mod
    → IsValid (with_options retry addrs cfg clock)
unfolding with_options
with_options-IsValid retry addrs cfg clock h = record {
  breakers_parallel = length-new_breakers cfg clock 0 addrs;
  authorities_parallel = refl;
  fits = h;
  next_fits = omega arith;
}

observe_breaker_outcome-IsValid :
    (u : Upstream) (idx : Option ℕ) (success : Bool) (now : ℕ)
    → IsValid u
    → IsValid (observe_breaker_outcome u idx success now)
unfolding observe_breaker_outcome
observe_breaker_outcome-IsValid u none success now v = v
observe_breaker_outcome-IsValid u (some i) success now v = go (get_elem? u.breakers i)
  where
    go :
        (o : Option Breaker)
        → IsValid (elim o [
          | none ↦ u
          | some b ↦ record u { breakers = set u.breakers i (observe success now b) }
        ])
    go none = v
    go (some b) = record {
      breakers_parallel = length-set u.breakers i (observe success now b) ∙ v.breakers_parallel;
      authorities_parallel = v.authorities_parallel;
      fits = v.fits;
      next_fits = v.next_fits;
    }

pick_addr-IsValid :
    (u u' : Upstream) (now : ℕ) (r : Option (SocketAddr × ℕ))
    → IsValid u
    → pick_addr u now ≡ done (r, u')
    → IsValid u'
pick_addr-IsValid u u' now r v e =
    let (r₁, u₁, e₁, same, v₁) = pick_addr_total u now v in
    let eq : u₁ ≡ u' = cc in subst IsValid eq v₁

pub IsValid-of_Reached : (start u : Upstream) → IsValid start → Reached start u → IsValid u
IsValid-of_Reached start u v built = v
IsValid-of_Reached start u v (picked u₀ _ now r s e) =
    pick_addr-IsValid u₀ u now r (IsValid-of_Reached start u₀ v s) e
IsValid-of_Reached start u v (observed u₀ idx success now s) =
    observe_breaker_outcome-IsValid u₀ idx success now (IsValid-of_Reached start u₀ v s)

-- Every state that a new upstream with fewer than 2^64 addresses reaches is valid: it has as many
-- breakers and authorities as addresses, and its counter fits a machine word.
pub Reached-IsValid :
    (retry : RetryPolicy) (addrs : List SocketAddr) (cfg : BreakerConfig) (clock : ℕ → ℕ)
    (u : Upstream)
    → length addrs < u64_mod
    → Reached (with_options retry addrs cfg clock) u
    → IsValid u
Reached-IsValid retry addrs cfg clock u h s =
    IsValid-of_Reached (with_options retry addrs cfg clock) u
      (with_options-IsValid retry addrs cfg clock h) s
