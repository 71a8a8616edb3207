-- ===== src/Process/Slots.antt =====
-- How `start_http_server` of crates/conduit/src/main.rs hands its cells to the calls of `setup`.
use ferroxy.Prelude.{
  ℕ, ◌+◌, ◌*◌, ◌%◌, ◌<◌, ◌≡◌, refl, ap, sym, ◌∙◌, ◌==◌, false, Bool, zero, suc, List, [], ◌∷◌,
  Option, some, replicate, inl, inr, length, get_elem?, get_elem?-of_lt, arith, u64_mod,
}
use native.Mathlib.Nat.{mul-add-mod_self_right, mod-eq_of_lt}
use ferroxy.Prelude.Text.{Text}
use ferroxy.Prelude.Result.{Result, ok, err}
use ferroxy.Prelude.Checked.{Checked, panic, done, ◌>>=◌}
use ferroxy.Http.{Http}
use ferroxy.Lifecycle.Dispatch.{Dispatch, from_config}
use ferroxy.Process.{
  Running, worker_slot, build_swaps, build_serve_spec, build_dispatch_bundle, spawn_https_thread,
}
use ferroxy.Process.Answers.{length-build_swaps}
use ferroxy.Config.Schema.{Config}
use ferroxy.Transport.Resolver.{ServerTls, CertTable}
use ferroxy.Upstream.Tls.{TlsLibrary}
use ferroxy.Io.Bind.{BindError, ServeSpec}
use ferroxy.Io.Spawn.{Started, serve, serve_lem, numbered}

mod_block : (n i j : ℕ) → i < n → (j * n + i) % n ≡ i
mod_block n i j h = mul-add-mod_self_right j n i ∙ mod-eq_of_lt h

-- Each block of as many calls of `setup` as there are workers hands out every cell once, in order, and no
-- call panics.
pub worker_slot-block :
    {h : Http} (workers : List (Dispatch h)) (i j : ℕ)
    → i < length workers
    → j * length workers + i < u64_mod
    → (d : Dispatch h) × (get_elem? workers i ≡ some d)
      × (worker_slot workers (j * length workers + i) ≡ done d)
unfolding worker_slot
worker_slot-block workers i j h k =
    let (d, e) = get_elem?-of_lt workers i h in
    let some_workers : (length workers == 0) ≡ false = ground arith in
    let index : (j * length workers + i) % u64_mod % length workers ≡ i =
      ap (λ (x : ℕ). x % length workers) (mod-eq_of_lt k) ∙ mod_block (length workers) i j h in
    (d, e, rw (some_workers, index, e, worker_slot) refl)

length-replicate {ℓ} : {A : Type ℓ} (n : ℕ) (a : A) → length (replicate n a) ≡ n
length-replicate zero a = refl
length-replicate (suc n) a = ap suc (length-replicate n a)

length-numbered : (k : ℕ) (ls : List (List Text)) → length (numbered k ls) ≡ length ls
length-numbered k [] = refl
length-numbered k (l ∷ ls) = ap suc (length-numbered (k + 1) ls)

ok-eq : {a b : Started} → ◌≡◌ {A = Result BindError Started} (ok a) (ok b) → a ≡ b
ok-eq e = cc

abbrev built :
    (h : Http) (l : TlsLibrary) (s : ServerTls) {T : Type 0}
    → (ℕ → Text → ℕ → ℕ)
    → Config T
    → ℕ
    → Option (CertTable s)
    → Running h s
built h l s clock cfg n resolver = record {
  primary = from_config h l (clock 0) cfg;
  http_workers = build_swaps h l clock cfg n 1;
  resolver = resolver;
}

-- The number of the cells of the workers.
cells_of :
    (h : Http) (l : TlsLibrary) (s : ServerTls) {T : Type 0} (clock : ℕ → Text → ℕ → ℕ)
    (cfg : Config T) (n : ℕ) (r : Running h s) (c : Checked (Option (CertTable s)))
    → (do resolver ← c; done (built h l s clock cfg n resolver)) ≡ done r
    → length r.http_workers ≡ n
cells_of h l s clock cfg n r panic e = cc
cells_of h l s clock cfg n r (done c) e =
    let same : built h l s clock cfg n c ≡ r = cc in
    sym (ap (λ (x : Running h s). length x.http_workers) same)
    ∙ length-build_swaps h l clock cfg n 1

-- The number of the threads.
pub threads_of :
    (bind : ℕ → Text → Option Text) (spawn : ℕ → Bool) (spec : ServeSpec) (started : Started)
    (n : ℕ)
    → spec.workers ≡ suc n
    → serve bind spawn spec ≡ ok started
    → length started.threads ≡ spec.workers
threads_of bind spawn spec started n w e = elim (serve_lem bind spawn spec n w) [
  | inl (x, f) ↦
      absurd (let q : ◌≡◌ {A = Result BindError Started} (err x) (ok started) = sym f ∙ e in cc)
  | inr (all, f, c) ↦
      let s : Started = record {
        threads = numbered 0 (replicate spec.workers all);
        local_addrs = all;
      } in
      let q : s ≡ started = ok-eq (sym f ∙ e) in
      sym (ap (λ (x : Started). length x.threads) q)
      ∙ length-numbered 0 (replicate spec.workers all)
      ∙ length-replicate spec.workers all
]

-- Where the plain HTTP plane starts, it has as many threads as there are cells for them, and each block
-- of that many calls of `setup`, in the order of their numbers, takes every cell once, in order, without
-- a panic, as long as the number of the call fits 64 bits.
pub serve-cells :
    (h : Http) (l : TlsLibrary) (s : ServerTls) {T : Type 0} (clock : ℕ → Text → ℕ → ℕ)
    (cfg : Config T) (available : Option ℕ) (bind : ℕ → Text → Option Text) (spawn : ℕ → Bool)
    (r : Running h s) (started : Started) (n : ℕ)
    → (build_serve_spec available cfg).workers ≡ suc n
    → build_dispatch_bundle h l s clock cfg (build_serve_spec available cfg).workers ≡ done r
    → serve bind spawn (build_serve_spec available cfg) ≡ ok started
    → (length started.threads ≡ length r.http_workers)
      × ((i j : ℕ)
          → i < length started.threads
          → j * length started.threads + i < u64_mod
          → (d : Dispatch h) × (get_elem? r.http_workers i ≡ some d)
            × (worker_slot r.http_workers (j * length started.threads + i) ≡ done d))
serve-cells h l s clock cfg available bind spawn r started n w b e =
    let same : length started.threads ≡ length r.http_workers =
      threads_of bind spawn (build_serve_spec available cfg) started n w e
      ∙ sym (
          unfold build_dispatch_bundle in
          cells_of h l s clock cfg (build_serve_spec available cfg).workers r
            (spawn_https_thread h l s cfg) b) in
    (same, rw same (λ i j. worker_slot-block r.http_workers i j))
