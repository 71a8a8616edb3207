-- ===== src/Upstream/Tls/Laws.antt =====
-- The errors and the verifier of a TLS set-up.
use ferroxy.Prelude.{◌≡◌, ◌≢◌, Bool, true, false, not, List, [], ◌∷◌, Option, none, some, is_empty}
use ferroxy.Prelude.Text.{Text}
use ferroxy.Prelude.Result.{Result, ok, err, ◌>>=◌, ◌>>◌, fail_if, ok_or}
use ferroxy.Config.Validate.{is_some}
use ferroxy.Upstream.Tls.{
  UpstreamTlsOptions, TlsLoadError, read_file, empty_pem, rustls, mismatched_client_cert,
  TlsLibrary, ClientConfig, add_roots, load_roots, read_chain, load_client_auth,
  build_client_config, rejects,
}

-- A chain of steps fails with an error only if one of the steps does.
bind-ne :
    {E A B : Type 0} (m : Result E A) (f : A → Result E B) (x : E)
    → m ≢ err x
    → ((a : A) → f a ≢ err x)
    → (m >>= f) ≢ err x
bind-ne (ok a) f x n g = g a
bind-ne (err e) f x n g = λ q. n (cc)

ok_or-ne :
    {A : Type 0} (o : Option A) (path : Text)
    → ok_or o (read_file path) ≢ err mismatched_client_cert
ok_or-ne none path q = cc
ok_or-ne (some a) path q = cc

empty-ne : (b : Bool) (path : Text) → fail_if b (empty_pem path) ≢ err mismatched_client_cert
empty-ne true path q = cc
empty-ne false path q = cc

rustls-ne : (b : Bool) → fail_if b rustls ≢ err mismatched_client_cert
rustls-ne true q = cc
rustls-ne false q = cc

ok-ne : {A : Type 0} (a : A) (x : TlsLoadError) → ok a ≢ err x
ok-ne a x q = cc

module _ (l : TlsLibrary) where
  add_roots-ne :
      (path : Text) (items : List (Option l.Cert))
      → add_roots l path items ≢ err mismatched_client_cert
  unfolding add_roots
  add_roots-ne path [] = λ q. cc
  add_roots-ne path (none ∷ items) = λ q. cc
  add_roots-ne path (some cert ∷ items) =
      bind-ne _ _ _ (rustls-ne (not (l.root_ok cert)))
        λ _. bind-ne _ _ _ (add_roots-ne path items) λ certs. ok-ne _ _

  read_chain-ne :
      (path : Text) (items : List (Option l.Cert))
      → read_chain l path items ≢ err mismatched_client_cert
  unfolding read_chain
  read_chain-ne path [] = λ q. cc
  read_chain-ne path (none ∷ items) = λ q. cc
  read_chain-ne path (some cert ∷ items) =
      bind-ne _ _ _ (read_chain-ne path items) λ certs. ok-ne _ _

  load_roots-ne : (ca : Option Text) → load_roots l ca ≢ err mismatched_client_cert
  unfolding load_roots
  load_roots-ne none = λ q. cc
  load_roots-ne (some path) = bind-ne _ _ _ (ok_or-ne (l.read path) path) λ bytes.
      bind-ne _ _ _ (add_roots-ne path (l.pem_certs bytes))
        λ certs. bind-ne _ _ _ (empty-ne (is_empty certs) path) λ _. ok-ne _ _

  load_client_auth-ne :
      (cert key : Option Text)
      → is_some cert ≡ is_some key
      → load_client_auth l cert key ≢ err mismatched_client_cert
  unfolding load_client_auth
  load_client_auth-ne none none e = λ q. cc
  load_client_auth-ne none (some k) e = λ q. cc
  load_client_auth-ne (some c) none e = λ q. cc
  load_client_auth-ne (some c) (some k) e = bind-ne _ _ _ (ok_or-ne (l.read c) c) λ cert_bytes.
      bind-ne _ _ _ (read_chain-ne c (l.pem_certs cert_bytes)) λ chain.
        bind-ne _ _ _ (empty-ne (is_empty chain) c) λ _.
          bind-ne _ _ _ (ok_or-ne (l.read k) k)
            λ key_bytes. bind-ne _ _ _ (ok_or-ne (l.pem_key key_bytes) k) λ key. ok-ne _ _

  pub build_client_config-ne :
      (opts : UpstreamTlsOptions)
      → is_some opts.client_cert ≡ is_some opts.client_key
      → build_client_config l opts ≢ err mismatched_client_cert
  unfolding build_client_config
  build_client_config-ne opts e = bind-ne _ _ _ (load_roots-ne opts.ca) λ roots.
      bind-ne _ _ _ (load_client_auth-ne opts.client_cert opts.client_key e)
        λ auth. bind-ne _ _ _ (rustls-ne (rejects l auth)) λ _. ok-ne _ _

  pub build_client_config-insecure :
      (opts : UpstreamTlsOptions) (cfg : ClientConfig l)
      → build_client_config l opts ≡ ok cfg
      → cfg.insecure ≡ not opts.verify
  unfolding build_client_config
  build_client_config-insecure opts cfg e =
      go (load_roots l opts.ca) (load_client_auth l opts.client_cert opts.client_key) e
    where
      go :
          (r : Result TlsLoadError (Option (List l.Cert)))
          (a : Result TlsLoadError (Option (List l.Cert × l.Key)))
          → (do
            roots ← r
            auth ← a
            fail_if (rejects l auth) rustls
            ok (record { roots = roots; client_auth = auth; insecure = not opts.verify }))
            ≡ ok cfg
          → cfg.insecure ≡ not opts.verify
      go (err x) a e = cc
      go (ok roots) (err x) e = cc
      go (ok roots) (ok auth) e = last (rejects l auth) e
        where
          last :
              (b : Bool)
              → (do
                fail_if b rustls
                ok (record { roots = roots; client_auth = auth; insecure = not opts.verify }))
                ≡ ok cfg
              → cfg.insecure ≡ not opts.verify
          last true e = cc
          last false e = cc
