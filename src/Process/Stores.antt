-- ===== src/Process/Stores.antt =====
-- The loop of `install_reload_handler` in crates/conduit/src/main.rs that stores a dispatcher into each cell, one
-- store after the other, while requests come in on the cells. `start_reload` puts the cell of the
-- other planes before those of the workers.
use ferroxy.Prelude.{
  ℕ, zero, suc, ◌+◌, ◌≡◌, ◌≢◌, refl, ◌∙◌, sym, subst, ap, ltb, List, [], ◌∷◌, ◌++◌, Option, some,
  length-append, length, get_elem?, set, lt→ltb, le→not-ltb, ◌⊎◌, if◌then◌else◌, inl, inr, arith,
  All, All-get_elem?,
}
use ferroxy.Prelude.Text.{Text}
use ferroxy.Prelude.Result.{ok}
use ferroxy.Prelude.Checked.{Checked, panic, done, ◌>>=◌}
use ferroxy.Http.{Http}
use ferroxy.Config.Schema.{Config}
use ferroxy.Control.Metrics.{Add}
use ferroxy.Lifecycle.Dispatch.{Dispatch, from_config}
use ferroxy.Proxy.{ProxyBody}
use ferroxy.Transport.Resolver.{ServerTls, CertTable}
use ferroxy.Upstream.Forward.{Response}
use ferroxy.Upstream.Tls.{TlsLibrary}
use ferroxy.Process.{Running, build_swaps, on_sighup, reload_certs}
use ferroxy.Process.Reached.{Fits, ProxyRun, Serves, AllServe, from_config-Serves, run-Serves}
use mathlib.Core.List.{append_assoc}

-- `all` of `start_reload`
unfoldable pub swappables : {h : Http} {s : ServerTls} → Running h s → List (Dispatch h)
swappables r = r.primary ∷ r.http_workers

set-append {ℓ} :
    {A : Type ℓ} (xs ys : List A) (y v : A) → set (xs ++ (y ∷ ys)) (length xs) v ≡ (xs ++ (v ∷ ys))
set-append [] ys y v = refl
set-append (x ∷ xs) ys y v = ap (λ zs. x ∷ zs) (set-append xs ys y v)

-- What stands in a list after a write: the new value at its place, and the old ones elsewhere.
get_elem?-set {ℓ} :
    {A : Type ℓ} (xs : List A) (k i : ℕ) (v d : A)
    → get_elem? (set xs k v) i ≡ some d
    → ((k ≡ i) × (v ≡ d)) ⊎ ((k ≢ i) × (get_elem? xs i ≡ some d))
get_elem?-set [] k i v d e = cc
get_elem?-set (x ∷ xs) zero zero v d e = inl (refl, cc)
get_elem?-set (x ∷ xs) zero (suc i) v d e = inr (ground arith, e)
get_elem?-set (x ∷ xs) (suc k) zero v d e = inr (ground arith, e)
get_elem?-set (x ∷ xs) (suc k) (suc i) v d e = ground (arith, get_elem?-set xs k i v d e)

module _ (h : Http) (l : TlsLibrary) {T : Type 0} where
  -- `swap.store(Arc::new(Dispatch::from_config(&cfg)))` on the cell `k`
  unfoldable pub store_cell :
      (ℕ → Text → ℕ → ℕ) → Config T → List (Dispatch h) → ℕ → List (Dispatch h)
  store_cell clock cfg cells k = set cells k (from_config h l (clock k) cfg)

  -- The loop, with so many cells left.
  unfoldable pub store_rest :
      (ℕ → Text → ℕ → ℕ) → Config T → List (Dispatch h) → ℕ → ℕ → List (Dispatch h)
  unfolding store_cell
  store_rest clock cfg cells k zero = cells
  store_rest clock cfg cells k (suc n) =
      store_rest clock cfg (store_cell clock cfg cells k) (k + 1) n

  store_rest_lem :
      (clock : ℕ → Text → ℕ → ℕ) (cfg : Config T) (xs ys : List (Dispatch h)) (k : ℕ)
      → k ≡ length xs
      → store_rest clock cfg (xs ++ ys) k (length ys)
        ≡ xs ++ build_swaps h l clock cfg (length ys) k
  unfolding store_rest build_swaps
  store_rest_lem clock cfg xs [] k e = refl
  store_rest_lem clock cfg xs (y ∷ ys) k e =
      let d = from_config h l (clock k) cfg in
      let first : set (xs ++ (y ∷ ys)) k d ≡ (xs ++ (d ∷ [])) ++ ys =
        ap (λ (j : ℕ). set (xs ++ (y ∷ ys)) j d) e
        ∙ set-append xs ys y d
        ∙ sym (append_assoc xs (d ∷ []) ys) in
      ap (λ (cells : List (Dispatch h)). store_rest clock cfg cells (k + 1) (length ys)) first
      ∙ store_rest_lem clock cfg (xs ++ (d ∷ [])) ys (k + 1)
          (omega (arith, length-append xs (d ∷ [])))
      ∙ append_assoc xs (d ∷ []) _

  abbrev built :
      {s : ServerTls} → (ℕ → Text → ℕ → ℕ) → Config T → ℕ → Option (CertTable s) → Running h s
  built clock cfg n resolver = record {
    primary = from_config h l (clock 0) cfg;
    http_workers = build_swaps h l clock cfg n 1;
    resolver = resolver;
  }

  stored_cells :
      {s : ServerTls} (clock : ℕ → Text → ℕ → ℕ) (cfg : Config T) (r r' : Running h s)
      (c : Checked (Option (CertTable s)))
      → (do resolver ← c; done (built clock cfg (length r.http_workers) resolver)) ≡ done r'
      → build_swaps h l clock cfg (length (swappables r)) 0 ≡ swappables r'
  unfolding swappables build_swaps
  stored_cells clock cfg r r' panic e = cc
  stored_cells {s} clock cfg r r' (done c) e =
      let q : built clock cfg (length r.http_workers) c ≡ r' = cc in
      ap (λ (x : Running h s). swappables x) q

  -- Without requests meanwhile, the loop leaves the cells that `on_sighup` gives.
  pub store_rest-on_sighup :
      {s : ServerTls} (clock : ℕ → Text → ℕ → ℕ) (cfg : Config T) (r r' : Running h s)
      → on_sighup h l clock (ok cfg) r ≡ done r'
      → store_rest clock cfg (swappables r) 0 (length (swappables r)) ≡ swappables r'
  unfolding swappables on_sighup build_swaps
  store_rest-on_sighup clock cfg r r' e =
      store_rest_lem clock cfg [] (swappables r) 0 refl
      ∙ stored_cells clock cfg r r' (reload_certs r.resolver cfg.tls) e

ltb-suc_ne : (i k : ℕ) → k ≢ i → ltb i (suc k) ≡ ltb i k
ltb-suc_ne i k n = ground arith

module _ (h : Http) (headers : h.HeaderMap) (l : TlsLibrary) (s : ServerTls) {T : Type 0}
    (cfg fresh : Config T) where
  -- The cells during a reload from one configuration to another, of which so many are stored.
  pub data Storing : List (Dispatch h) → ℕ → Type 0 where
    loaded : (r : Running h s) → AllServe h headers l s cfg r → Storing (swappables r) 0
    stored :
        (clock : ℕ → Text → ℕ → ℕ) (cells : List (Dispatch h)) (k : ℕ)
        → Storing cells k
        → Storing (store_cell h l clock fresh cells k) (suc k)
    served :
        (cells : List (Dispatch h)) (k i : ℕ) (d : Dispatch h)
        (out : Response h (ProxyBody h) × List Add × Dispatch h)
        → Storing cells k
        → get_elem? cells i ≡ some d
        → ProxyRun h headers d out
        → Storing (set cells i out.2) k

  -- The configuration of the cell `i` when `k` cells are stored.
  abbrev pub in_force : ℕ → ℕ → Config T
  in_force k i = if ltb i k then fresh else cfg

  swappables-Serve :
      (r : Running h s)
      → AllServe h headers l s cfg r
      → All (Serves h headers l s cfg) (swappables r)
  unfolding swappables
  swappables-Serve r a = (a.primary_serves, a.workers_serve)

  stored-Serves :
      (clock : ℕ → Text → ℕ → ℕ) (cells : List (Dispatch h)) (k i : ℕ) (d : Dispatch h)
      → Fits fresh
      → ((e : Dispatch h) → get_elem? cells i ≡ some e → Serves h headers l s (in_force k i) e)
      → get_elem? (store_cell h l clock fresh cells k) i ≡ some d
      → Serves h headers l s (in_force (suc k) i) d
  unfolding store_cell
  stored-Serves clock cells k i d f old e = elim (get_elem?-set cells k i _ d e) [
    | inl (same, q) ↦
        rw (lt→ltb i (suc k) (omega arith)) (
          subst (Serves h headers l s fresh) q (from_config-Serves h headers l s (clock k) fresh f))
    | inr (other, old_cell) ↦ rw (ltb-suc_ne i k other) (old d old_cell)
  ]

  -- While a reload stores its dispatchers, each cell has wholly the routes of one configuration and valid
  -- upstreams: those of the new one if its store was made, and of the one before it otherwise.
  pub Storing-Serves :
      (cells : List (Dispatch h)) (k i : ℕ) (d : Dispatch h)
      → Fits fresh
      → Storing cells k
      → get_elem? cells i ≡ some d
      → Serves h headers l s (in_force k i) d
  Storing-Serves _ _ i d f (loaded r a) e =
      rw (le→not-ltb i 0 (omega arith))
        (All-get_elem? (Serves h headers l s cfg) (swappables r) i d (swappables-Serve r a) e)
  Storing-Serves _ _ i d f (stored clock cells k p) e =
      stored-Serves clock cells k i d f (λ x q. Storing-Serves cells k i x f p q) e
  Storing-Serves _ k i d f (served cells _ j x out p g run) e =
      elim (get_elem?-set cells j i out.2 d e) [
        | inl (same, q) ↦ subst (Serves h headers l s (in_force k i)) q (
            run-Serves h headers l s (in_force k i) x out run (
              Storing-Serves cells k i x f p
                (subst (λ (m : ℕ). get_elem? cells m ≡ some x) same g)))
        | inr (other, old_cell) ↦ Storing-Serves cells k i d f p old_cell
      ]
