-- ===== src/Lifecycle/Upstreams/Valid.antt =====
-- A map whose upstreams are all valid.
use ferroxy.Prelude.{
  ℕ, ◌<◌, ◌≡◌, subst, List, [], ◌∷◌, some, All, length, u64_mod, Bool-cases, inl, inr,
}
use ferroxy.Prelude.Text.{Text, text_eq}
use ferroxy.Prelude.Assoc.{Assoc, lookup}
use ferroxy.Prelude.Assoc
use ferroxy.Prelude.Result.{Result, ok, err, ◌>>=◌}
use ferroxy.Config.Schema.{Config}
use ferroxy.Config.Schema
use ferroxy.Upstream.Breaker.{default_config}
use ferroxy.Upstream.Retry.{no_retry}
use ferroxy.Upstream.Pool.{Upstream, with_options}
use ferroxy.Upstream.Pool.Select.{IsValid}
use ferroxy.Upstream.Pool.Reach.{with_options-IsValid}
use ferroxy.Upstream.Tls.{TlsLibrary, TlsLoadError, ClientConfig, build_https_connector, with_tls}
use ferroxy.Lifecycle.Upstreams.{
  UpstreamMap, empty_map, insert, tls_options, add_built, build_one, add_upstreams, from_config,
}

abbrev pub IsValidMap : UpstreamMap → Type 0
IsValidMap m = All (λ (entry : Text × Upstream). IsValid entry.1) m.by_name

pub get-IsValidMap :
    (name : Text) (u : Upstream) (m : Assoc Upstream)
    → All (λ (entry : Text × Upstream). IsValid entry.1) m
    → lookup name m ≡ some u
    → IsValid u
unfolding lookup
get-IsValidMap name u [] a e = cc
get-IsValidMap name u ((key, v) ∷ m) a e = elim (Bool-cases (text_eq key name)) [
  | inl t ↦ let same : v ≡ u = cc in subst IsValid same a.0
  | inr t ↦ get-IsValidMap name u m a.1 (rw t at e)
]

All-insert :
    (name : Text) (u : Upstream) (m : Assoc Upstream)
    → IsValid u
    → All (λ (entry : Text × Upstream). IsValid entry.1) m
    → All (λ (entry : Text × Upstream). IsValid entry.1) (Assoc.insert name u m)
unfolding Assoc.insert
All-insert name u [] v a = (v, tt)
All-insert name u ((key, w) ∷ m) v a = elim (Bool-cases (text_eq key name)) [
  | inl t ↦ rw t (v, a.1)
  | inr t ↦ rw t (a.0, All-insert name u m v a.1)
]

pub insert-IsValidMap :
    (name : Text) (u : Upstream) (m : UpstreamMap)
    → IsValid u
    → IsValidMap m
    → IsValidMap (insert name u m)
unfolding insert
insert-IsValidMap name u m v all = All-insert name u m.by_name v all

module _ (l : TlsLibrary) (clock : Text → ℕ → ℕ) where
  abbrev Fits : Schema.Upstream → Type 0
  Fits u = length u.addrs < u64_mod

  add_built-IsValidMap :
      (u : Schema.Upstream) (m : UpstreamMap)
      → Fits u
      → IsValidMap m
      → IsValidMap (add_built u.name (build_one l clock u) m)
  unfolding build_one with_tls
  add_built-IsValidMap u m f all = go (build_https_connector l (tls_options u.tls))
    where
      fresh : Upstream
      fresh = with_options no_retry u.addrs default_config (clock u.name)

      go :
          (r : Result TlsLoadError (ClientConfig l))
          → IsValidMap (add_built u.name (r >>= λ connector. ok fresh) m)
      go (err e) = all
      go (ok connector) =
          insert-IsValidMap u.name fresh m
            (with_options-IsValid no_retry u.addrs default_config (clock u.name) f) all

  add_upstreams-IsValidMap :
      (us : List Schema.Upstream) (m : UpstreamMap)
      → All Fits us
      → IsValidMap m
      → IsValidMap (add_upstreams l clock us m)
  unfolding add_upstreams
  add_upstreams-IsValidMap [] m f all = all
  add_upstreams-IsValidMap (u ∷ us) m f all =
      add_upstreams-IsValidMap us (add_built u.name (build_one l clock u) m) f.1
        (add_built-IsValidMap u m f.0 all)

  -- The map built from a configuration, each of whose upstreams has fewer than 2^64 addresses, holds
  -- valid upstreams only, whether their TLS files load or not.
  pub from_config-IsValidMap :
      {T : Type 0} (cfg : Config T)
      → All (λ (u : Schema.Upstream). length u.addrs < u64_mod) cfg.upstreams
      → IsValidMap (from_config l clock cfg)
  unfolding from_config
  from_config-IsValidMap cfg f = add_upstreams-IsValidMap cfg.upstreams empty_map f tt
