-- ===== src/Control/Metrics/Sums.antt =====
-- The value of a counter after any interleaving of the requests that bump it.
use ferroxy.Prelude.{
  ℕ, zero, suc, ◌+◌, ◌%◌, ◌<◌, ◌≡◌, refl, ap, List, [], ◌∷◌, ◌++◌, All, some, get_elem?, set, arith,
  u64_mod, if◌then◌else◌,
}
use ferroxy.Control.Metrics.{Counter, MetricsHandle, Add, same, new, fetch_add, perform}

-- What a list of additions adds to one counter.
unfoldable pub sum_for : Counter → List Add → ℕ
sum_for c [] = 0
sum_for c ((d, n) ∷ ops) = (if same d c then n else 0) + sum_for c ops

pub sum_for-append :
    (c : Counter) (ops more : List Add) → sum_for c (ops ++ more) ≡ sum_for c ops + sum_for c more
unfolding sum_for
sum_for-append c [] more = omega arith
sum_for-append c ((d, n) ∷ ops) more = omega (arith, sum_for-append c ops more)

perform-sum_for :
    (m : MetricsHandle) (ops : List Add) (c : Counter)
    → m c < u64_mod
    → perform m ops c ≡ (m c + sum_for c ops) % u64_mod
unfolding perform fetch_add sum_for
perform-sum_for m [] c h = omega arith
perform-sum_for m ((d, n) ∷ ops) c h = ground (arith, perform-sum_for (fetch_add m (d, n)) ops c)

-- The additions of several threads, each in its own order, in one order of execution.
pub data Interleaved : List (List Add) → List Add → Type 0 where
  all_done : {ts : List (List Add)} → All (λ t. t ≡ []) ts → Interleaved ts []
  advance :
      {ts : List (List Add)} {ops : List Add} (i : ℕ) (a : Add) (t : List Add)
      → get_elem? ts i ≡ some (a ∷ t)
      → Interleaved (set ts i t) ops
      → Interleaved ts (a ∷ ops)

unfoldable pub sum_threads : Counter → List (List Add) → ℕ
sum_threads c [] = 0
sum_threads c (t ∷ ts) = sum_for c t + sum_threads c ts

sum_threads-done :
    (c : Counter) (ts : List (List Add)) → All (λ t. t ≡ []) ts → sum_threads c ts ≡ 0
unfolding sum_threads sum_for
sum_threads-done c [] h = refl
sum_threads-done c (t ∷ ts) h = grind (arith, h.0, sum_threads-done c ts h.1)

sum_threads-set :
    (c : Counter) (ts : List (List Add)) (i : ℕ) (d : Counter) (n : ℕ) (t : List Add)
    → get_elem? ts i ≡ some ((d, n) ∷ t)
    → sum_threads c ts ≡ (if same d c then n else 0) + sum_threads c (set ts i t)
unfolding sum_threads sum_for
sum_threads-set c [] i d n t e = cc
sum_threads-set c (s ∷ ts) zero d n t e =
    let q : s ≡ (d, n) ∷ t = cc in omega (arith, ap (sum_for c) q)
sum_threads-set c (s ∷ ts) (suc i) d n t e = omega (arith, sum_threads-set c ts i d n t e)

sum_for-Interleaved :
    (c : Counter) {ts : List (List Add)} {ops : List Add}
    → Interleaved ts ops
    → sum_for c ops ≡ sum_threads c ts
unfolding sum_for
sum_for-Interleaved c (all_done h) = omega (arith, sum_threads-done c _ h)
sum_for-Interleaved c (advance i (d, n) t e rest) =
    omega (arith, sum_for-Interleaved c rest, sum_threads-set c _ i d n t e)

-- However the additions of several threads interleave, each counter ends with the sum of what the
-- threads add to it, modulo 2^64.
pub perform-Interleaved :
    (ts : List (List Add)) (ops : List Add) (c : Counter)
    → Interleaved ts ops
    → perform new ops c ≡ sum_threads c ts % u64_mod
unfolding new
perform-Interleaved ts ops c h =
    omega (arith, perform-sum_for new ops c (omega arith), sum_for-Interleaved c h)
