-- ===== src/Io/Bind/Shards.antt =====
-- Every worker gets every listener.
use ferroxy.Prelude.{
  ℕ, zero, suc, ◌+◌, ◌≡◌, refl, ◌⊎◌, inl, inr, List, [], ◌∷◌, ◌++◌, Option, length, replicate,
  is_empty, arith, Option-cases, Bool-cases, length-append,
}
use ferroxy.Prelude.Text.{Text}
use ferroxy.Prelude.Result.{ok, err}
use ferroxy.Io.Bind.{
  ServeSpec, BindError, no_listeners, bind_failed, Bound, bind_rest, bind_all, serve_bound,
}

abbrev pub sharded : ℕ → List Text → Bound
sharded workers bound = record { per_worker = replicate workers bound; bound = bound }

module _ (bind : ℕ → Text → Option Text) where
  bind_rest-replicate :
      (n k : ℕ) (resolved : Text) (slot : List Text)
      → ((e : BindError) × (bind_rest bind k resolved (replicate n slot) ≡ err e))
        ⊎ (bind_rest bind k resolved (replicate n slot) ≡ ok (replicate n (slot ++ resolved ∷ [])))
  unfolding bind_rest
  bind_rest-replicate zero k resolved slot = inr refl
  bind_rest-replicate (suc n) k resolved slot = elim (Option-cases (bind k resolved)) [
    | inl b ↦ inl (bind_failed resolved, rw b refl)
    | inr (l, b) ↦ elim (bind_rest-replicate n (k + 1) resolved slot) [
      | inl (e, r) ↦ inl (e, rw (b, r) refl)
      | inr r ↦ inr (rw (b, r) refl)
    ]
  ]

  bind_all-sharded :
      (n stride k : ℕ) (addrs bound : List Text)
      → ((e : BindError) × (bind_all bind stride k addrs (sharded (suc n) bound) ≡ err e))
        ⊎ ((all : List Text) × (bind_all bind stride k addrs (sharded (suc n) bound)
              ≡ ok (sharded (suc n) all))
            × (length all ≡ length bound + length addrs))
  unfolding bind_all
  bind_all-sharded n stride k [] bound = inr (bound, refl, omega arith)
  bind_all-sharded n stride k (addr ∷ addrs) bound = elim (Option-cases (bind k addr)) [
    | inl b ↦ inl (bind_failed addr, rw b refl)
    | inr (resolved, b) ↦ elim (bind_rest-replicate n (k + 1) resolved bound) [
      | inl (e, r) ↦ inl (e, rw (b, r) refl)
      | inr r ↦ elim (bind_all-sharded n stride (k + stride) addrs (bound ++ resolved ∷ [])) [
        | inl (e, a) ↦ inl (e, rw (b, r, a) refl)
        | inr (all, a, c) ↦
            inr (all, rw (b, r, a) refl, omega (arith, c, length-append bound (resolved ∷ [])))
      ]
    ]
  ]

  -- With at least one worker, `serve` either fails, for want of a listener or of an address that it
  -- can bind, or gives every worker a listener on each of the bound addresses, of which there is one
  -- for each listener of the specification.
  pub serve_bound_lem :
      (spec : ServeSpec) (n : ℕ)
      → spec.workers ≡ suc n
      → ((e : BindError) × (serve_bound bind spec ≡ err e))
        ⊎ ((all : List Text) × (serve_bound bind spec ≡ ok (sharded spec.workers all))
            × (length all ≡ length spec.listeners))
  unfolding serve_bound
  serve_bound_lem spec n e = elim (Bool-cases (is_empty spec.listeners)) [
    | inl f ↦ inl (no_listeners, rw f refl)
    | inr f ↦
        rw (f, e, serve_bound)
          (elim (bind_all-sharded n (suc n) 0 spec.listeners []) [
            | inl x ↦ inl x
            | inr (all, a, c) ↦ inr (all, a, omega (arith, c))
          ])
  ]
