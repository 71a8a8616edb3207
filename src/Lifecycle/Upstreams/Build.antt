-- ===== src/Lifecycle/Upstreams/Build.antt =====
-- What a map built from a valid configuration holds.
use ferroxy.Prelude.{
  ℕ, ◌≡◌, ◌≢◌, ◌∙◌, ap, subst, true, false, not, List, [], ◌∷◌, none, some, All, All-get_elem?,
  get_elem?, Bool-cases, inl, inr, if◌then◌else◌,
}
use ferroxy.Prelude.Text.{Text, text_eq, text_eq_iff}
use ferroxy.Prelude.Assoc.{lookup-insert}
use ferroxy.Prelude.Result.{Result, ok, err}
use ferroxy.Config.Schema.{Config, UpstreamTls}
use ferroxy.Config.Schema
use ferroxy.Config.Validate.{ValidationOptions, check_logic}
use ferroxy.Config.Validate.Rules.{OnSome, Listed, TlsRules, UpstreamRules, names}
use ferroxy.Config.Validate.Sound.{check_logic_sound}
use ferroxy.Upstream.Pool.{Upstream}
use ferroxy.Upstream.Tls.{
  TlsLibrary, TlsLoadError, ClientConfig, mismatched_client_cert, build_client_config,
}
use ferroxy.Upstream.Tls.Laws.{build_client_config-ne, build_client_config-insecure}
use ferroxy.Lifecycle.Upstreams.{
  UpstreamMap, empty_map, insert, get, options_of, build_one, add_built, add_upstreams, from_config,
}

TlsRules-at :
    {T : Type 0} (cfg : Config T) (opts : ValidationOptions) (i : ℕ) (u : Schema.Upstream)
    (t : UpstreamTls)
    → check_logic cfg opts ≡ ok tt
    → get_elem? cfg.upstreams i ≡ some u
    → u.tls ≡ some t
    → TlsRules opts t
TlsRules-at cfg opts i u t ok_ at q =
    let v = check_logic_sound cfg opts ok_ in
    let r = All-get_elem? (UpstreamRules opts) cfg.upstreams i u v.upstream_rules at in
    subst (OnSome (TlsRules opts)) q r.tls_rules

module _ (l : TlsLibrary) where
  -- The TLS set-up of an upstream in an accepted configuration never fails because of a client
  -- certificate without a key, or a key without a certificate.
  pub build_client_config_of_checked :
      {T : Type 0} (cfg : Config T) (opts : ValidationOptions) (i : ℕ) (u : Schema.Upstream)
      (t : UpstreamTls)
      → check_logic cfg opts ≡ ok tt
      → get_elem? cfg.upstreams i ≡ some u
      → u.tls ≡ some t
      → build_client_config l (options_of t) ≢ err mismatched_client_cert
  build_client_config_of_checked cfg opts i u t c at q =
      build_client_config-ne l (options_of t) (TlsRules-at cfg opts i u t c at q).mtls_pair

  -- If insecure TLS is not opted into, no upstream of an accepted configuration gets the verifier
  -- that accepts every server.
  pub verified_of_checked :
      {T : Type 0} (cfg : Config T) (opts : ValidationOptions) (i : ℕ) (u : Schema.Upstream)
      (t : UpstreamTls) (c : ClientConfig l)
      → check_logic cfg opts ≡ ok tt
      → opts.allow_insecure_tls ≡ false
      → get_elem? cfg.upstreams i ≡ some u
      → u.tls ≡ some t
      → build_client_config l (options_of t) ≡ ok c
      → c.insecure ≡ false
  verified_of_checked cfg opts i u t c ok_ strict at q built =
      let e = build_client_config-insecure l (options_of t) c built in
      elim (TlsRules-at cfg opts i u t ok_ at q).opted_in [ inl v ↦ e ∙ ap not v | inr o ↦ cc ]

pub get-insert :
    (name key : Text) (v : Upstream) (m : UpstreamMap)
    → get (insert name v m) key ≡ (if text_eq name key then some v else get m key)
unfolding get insert
get-insert name key v m = lookup-insert name key v m.by_name

get-add_built :
    (name key : Text) (r : Result TlsLoadError Upstream) (m : UpstreamMap)
    → get m key ≢ none
    → get (add_built name r m) key ≢ none
get-add_built name key (err e) m n = n
get-add_built name key (ok v) m n = elim (Bool-cases (text_eq name key)) [
  | inl e ↦ λ q. cc (get-insert name key v m)
  | inr e ↦ λ q. n (cc (get-insert name key v m))
]

module _ (l : TlsLibrary) (clock : Text → ℕ → ℕ) where
  -- The TLS files of the upstream load.
  abbrev pub Loads : Schema.Upstream → Type 0
  Loads u = (v : Upstream) × (build_one l clock u ≡ ok v)

  kept :
      (us : List Schema.Upstream) (m : UpstreamMap) (name : Text)
      → get m name ≢ none
      → get (add_upstreams l clock us m) name ≢ none
  unfolding add_upstreams
  kept [] m name n = n
  kept (u ∷ us) m name n =
      kept us (add_built u.name (build_one l clock u) m) name
        (get-add_built u.name name (build_one l clock u) m n)

  registered :
      (us : List Schema.Upstream) (m : UpstreamMap) (name : Text)
      → All Loads us
      → Listed name (names us)
      → get (add_upstreams l clock us m) name ≢ none
  unfolding add_upstreams
  registered [] m name a x = absurd x
  registered (u ∷ us) m name (a, rest) (inr x) = registered us _ name rest x
  registered (u ∷ us) m name ((v, e), rest) (inl x) =
      kept us (add_built u.name (build_one l clock u) m) name now
    where
      now : get (add_built u.name (build_one l clock u) m) name ≢ none
      now q =
          let same : text_eq u.name name ≡ true = (text_eq_iff u.name name).1 x in
          cc (get-insert u.name name v m)

  -- Every upstream that a configuration declares is in the map that is built from it, if the TLS files
  -- of all upstreams load.
  pub from_config-Listed :
      {T : Type 0} (cfg : Config T) (name : Text)
      → All Loads cfg.upstreams
      → Listed name (names cfg.upstreams)
      → get (from_config l clock cfg) name ≢ none
  unfolding from_config
  from_config-Listed cfg name a x = registered cfg.upstreams empty_map name a x
