-- ===== src/Upstream/Tls.antt =====
-- The TLS options of an upstream in crates/conduit-upstream/src/lib.rs, and `Upstream::with_tls`. The file
-- system, the PEM parser and rustls are parameters.
pub mod Laws
use ferroxy.Prelude.{
  ℕ, Bool, true, false, not, List, [], ◌∷◌, Option, none, some, is_empty, if◌then◌else◌,
}
use ferroxy.Prelude.Text.{Text}
use ferroxy.Prelude.Result.{Result, ok, err, ◌>>=◌, ◌>>◌, fail_if, ok_or}
use ferroxy.Upstream.Breaker.{BreakerConfig}
use ferroxy.Upstream.Retry.{RetryPolicy}
use ferroxy.Upstream.Pool.{Upstream, SocketAddr, with_options}

pub record UpstreamTlsOptions : Type 0 where
  pub ca : Option Text
  pub client_cert : Option Text
  pub client_key : Option Text
  pub verify : Bool

pub data TlsLoadError : Type 0 where
  read_file : Text → TlsLoadError
  empty_pem : Text → TlsLoadError
  rustls mismatched_client_cert : TlsLoadError

pub record TlsLibrary : Type 1 where
  pub Bytes : Type 0
  pub Cert : Type 0
  pub Key : Type 0
  -- `std::fs::read`
  pub read : Text → Option Bytes
  -- The items of `CertificateDer::pem_slice_iter`; one that does not parse is `none`.
  pub pem_certs : Bytes → List (Option Cert)
  -- `PrivateKeyDer::from_pem_slice`
  pub pem_key : Bytes → Option Key
  -- Whether `RootCertStore::add` and `with_client_auth_cert` succeed.
  pub root_ok : Cert → Bool
  pub pair_ok : List Cert → Key → Bool

-- What is chosen for a `rustls::ClientConfig`: its root certificates, where `none` is the bundled
-- store, its client certificate, and whether the verifier accepts every server.
pub record ClientConfig (l : TlsLibrary) : Type 0 where
  pub roots : Option (List l.Cert)
  pub client_auth : Option (List l.Cert × l.Key)
  pub insecure : Bool

module _ (l : TlsLibrary) where
  -- The loop over a CA file.
  unfoldable pub add_roots : Text → List (Option l.Cert) → Result TlsLoadError (List l.Cert)
  add_roots path [] = ok []
  add_roots path (none ∷ items) = err (read_file path)
  add_roots path (some cert ∷ items) = do
    fail_if (not (l.root_ok cert)) rustls
    certs ← add_roots path items
    ok (cert ∷ certs)

  unfoldable pub load_roots : Option Text → Result TlsLoadError (Option (List l.Cert))
  load_roots none = ok none
  load_roots (some path) = do
    bytes ← ok_or (l.read path) (read_file path)
    certs ← add_roots path (l.pem_certs bytes)
    fail_if (is_empty certs) (empty_pem path)
    ok (some certs)

  -- The loop over a client certificate file.
  unfoldable pub read_chain : Text → List (Option l.Cert) → Result TlsLoadError (List l.Cert)
  read_chain path [] = ok []
  read_chain path (none ∷ items) = err (read_file path)
  read_chain path (some cert ∷ items) = do certs ← read_chain path items; ok (cert ∷ certs)

  unfoldable pub load_client_auth :
      Option Text → Option Text → Result TlsLoadError (Option (List l.Cert × l.Key))
  load_client_auth (some cert_path) (some key_path) = do
    cert_bytes ← ok_or (l.read cert_path) (read_file cert_path)
    chain ← read_chain cert_path (l.pem_certs cert_bytes)
    fail_if (is_empty chain) (empty_pem cert_path)
    key_bytes ← ok_or (l.read key_path) (read_file key_path)
    key ← ok_or (l.pem_key key_bytes) (read_file key_path)
    ok (some (chain, key))
  load_client_auth none none = ok none
  load_client_auth (some cert_path) none = err mismatched_client_cert
  load_client_auth none (some key_path) = err mismatched_client_cert

  abbrev rejects : Option (List l.Cert × l.Key) → Bool
  rejects none = false
  rejects (some (chain, key)) = not (l.pair_ok chain key)

  unfoldable pub build_client_config : UpstreamTlsOptions → Result TlsLoadError (ClientConfig l)
  unfolding load_roots
  build_client_config opts = do
    roots ← load_roots opts.ca
    auth ← load_client_auth opts.client_cert opts.client_key
    fail_if (rejects auth) rustls
    ok (record { roots = roots; client_auth = auth; insecure = not opts.verify })

  -- `build_https_connector`; without options the connector has the bundled roots.
  unfoldable pub build_https_connector :
      Option UpstreamTlsOptions → Result TlsLoadError (ClientConfig l)
  unfolding build_client_config
  build_https_connector none = ok (record { roots = none; client_auth = none; insecure = false })
  build_https_connector (some opts) = build_client_config opts

  unfoldable pub with_tls :
      RetryPolicy
      → List SocketAddr
      → BreakerConfig
      → (ℕ → ℕ)
      → Option UpstreamTlsOptions
      → Result TlsLoadError Upstream
  unfolding build_https_connector
  with_tls retry addrs breaker clock tls = do
    connector ← build_https_connector tls
    ok (with_options retry addrs breaker clock)
