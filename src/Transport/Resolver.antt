-- ===== src/Transport/Resolver.antt =====
-- crates/conduit-transport/src/tls.rs: `MultiCertResolver` and the loading of its table. The file system,
-- the PEM parser and rustls are parameters; the cell that `reload` swaps is explicit state.
pub mod Choice
pub mod Build
pub mod Tests
use ferroxy.Prelude.{
  ℕ, ◌*◌, ◌++◌, Bool, true, false, List, [], ◌∷◌, Option, none, some, is_empty, if◌then◌else◌, ◌==◌,
}
use ferroxy.Prelude.Text.{Text, codes, text_eq, to_ascii_lowercase}
use ferroxy.Prelude.Assoc.{Assoc, lookup, insert}
use ferroxy.Prelude.Checked.{Checked, panic, done}
use ferroxy.Prelude.Result.{Result, ok, err, ◌>>=◌, ◌>>◌, fail_if, ok_or}
use ferroxy.Config.Schema.{CertSpec, TlsConfig}

pub data TlsError : Type 0 where
  read_file invalid_pem no_cert no_key : Text → TlsError
  rustls : Text → TlsError
  handshake no_certs : TlsError

pub data PemKey (K : Type 0) : Type 0 where
  key : K → PemKey K
  no_items_found malformed : PemKey K

pub record ServerTls : Type 1 where
  pub Bytes : Type 0
  pub Cert : Type 0
  pub Key : Type 0
  pub SigningKey : Type 0
  -- `std::fs::read`
  pub read : Text → Option Bytes
  -- The items of `CertificateDer::pem_slice_iter`; one that does not parse is `none`.
  pub pem_certs : Bytes → List (Option Cert)
  -- `PrivateKeyDer::from_pem_slice`
  pub pem_key : Bytes → PemKey Key
  -- `rustls::crypto::ring::sign::any_supported_type`
  pub any_supported_type : Key → Option SigningKey

-- `path.strip_prefix(prefix)`
unfoldable pub strip_prefix : Text → Text → Option Text
strip_prefix s [] = some s
strip_prefix [] (b ∷ p) = none
strip_prefix (a ∷ s) (b ∷ p) = let rest = strip_prefix s p in if a == b then rest else none

-- The text after the first dot.
unfoldable pub after_dot : Text → Option Text
after_dot [] = none
after_dot (a ∷ s) = let rest = after_dot s in if a == b'.' then some s else rest

unfoldable pub wildcard_of : Text → Option Text
unfolding strip_prefix
wildcard_of sni = strip_prefix sni (codes "*.")

module _ (l : ServerTls) where
  -- `rustls::sign::CertifiedKey`
  pub record CertifiedKey : Type 0 where
    pub cert : List l.Cert
    pub key : l.SigningKey
    pub ocsp : Option l.Bytes

  pub record CertTable : Type 0 where
    pub exact : Assoc CertifiedKey
    pub wildcard : List (Text × CertifiedKey)
    pub fallback : CertifiedKey

  -- The loop of `load_certs`.
  unfoldable pub read_certs : Text → List (Option l.Cert) → Result TlsError (List l.Cert)
  read_certs path [] = ok []
  read_certs path (none ∷ items) = err (read_file path)
  read_certs path (some c ∷ items) = do certs ← read_certs path items; ok (c ∷ certs)

  unfoldable pub load_certs : Text → Result TlsError (List l.Cert)
  load_certs path = do
    bytes ← ok_or (l.read path) (read_file path)
    certs ← read_certs path (l.pem_certs bytes)
    fail_if (is_empty certs) (no_cert path)
    ok certs

  unfoldable pub load_key : Text → Result TlsError l.Key
  load_key path = do
    bytes ← ok_or (l.read path) (read_file path)
    elim (l.pem_key bytes) [
      | key k ↦ ok k
      | no_items_found ↦ err (no_key path)
      | malformed ↦ err (read_file path)
    ]

  unfoldable pub load_ocsp : Option Text → Result TlsError (Option l.Bytes)
  load_ocsp none = ok none
  load_ocsp (some path) = do bytes ← ok_or (l.read path) (read_file path); ok (some bytes)

  -- The body of the loop of `build_table` up to its `Arc::new(ck)`.
  unfoldable pub load_spec : CertSpec → Result TlsError CertifiedKey
  load_spec spec = do
    certs ← load_certs spec.cert
    k ← load_key spec.key
    signing_key ← ok_or (l.any_supported_type k) (rustls spec.sni)
    ocsp ← load_ocsp spec.ocsp_response
    ok (record { cert = certs; key = signing_key; ocsp = ocsp })

  -- The variables of `build_table`.
  pub record Building : Type 0 where
    pub exact : Assoc CertifiedKey
    pub wildcard : List (Text × CertifiedKey)
    pub fallback : Option CertifiedKey

  abbrev pub keep_first : Option CertifiedKey → CertifiedKey → Option CertifiedKey
  keep_first none ck = some ck
  keep_first (some first) ck = some first

  -- The rest of the body of the loop.
  unfoldable pub add_key : Building → Text → CertifiedKey → Building
  add_key t sni ck = elim (wildcard_of sni) [
    | some suffix ↦ record {
      exact = t.exact;
      wildcard = t.wildcard ++ (to_ascii_lowercase suffix, ck) ∷ [];
      fallback = keep_first t.fallback ck;
    }
    | none ↦ record {
      exact = insert (to_ascii_lowercase sni) ck t.exact;
      wildcard = t.wildcard;
      fallback = keep_first t.fallback ck;
    }
  ]

  unfoldable pub add_specs : List CertSpec → Building → Result TlsError Building
  unfolding load_spec
  add_specs [] t = ok t
  add_specs (spec ∷ specs) t = do ck ← load_spec spec; add_specs specs (add_key t spec.sni ck)

  -- The `expect` at the end of `build_table`.
  abbrev pub finish : Result TlsError Building → Checked (Result TlsError CertTable)
  finish (err e) = done (err e)
  finish (ok t) = elim t.fallback [
    | none ↦ panic
    | some fallback ↦
        done (ok (record { exact = t.exact; wildcard = t.wildcard; fallback = fallback }))
  ]

  abbrev pub nothing_built : Building
  nothing_built = record { exact = []; wildcard = []; fallback = none }

  unfoldable pub build_table : List CertSpec → Checked (Result TlsError CertTable)
  unfolding add_specs
  build_table [] = done (err no_certs)
  build_table (spec ∷ specs) = finish (add_specs (spec ∷ specs) nothing_built)

  -- The `for (pat, ck) in &table.wildcard` loop.
  unfoldable pub find_wildcard : Text → List (Text × CertifiedKey) → Option CertifiedKey
  find_wildcard suffix [] = none
  find_wildcard suffix ((pat, ck) ∷ rest) =
      let found = find_wildcard suffix rest in if text_eq pat suffix then some ck else found

  abbrev pub or_fallback : CertTable → Option CertifiedKey → CertifiedKey
  or_fallback table none = table.fallback
  or_fallback table (some ck) = ck

  unfoldable pub lookup_sni : CertTable → Text → CertifiedKey
  lookup_sni table sni =
      let name = to_ascii_lowercase sni in
      elim (lookup name table.exact) [
        | some ck ↦ ck
        | none ↦ elim (after_dot name) [
          | none ↦ table.fallback
          | some suffix ↦ or_fallback table (find_wildcard suffix table.wildcard)
        ]
      ]

  abbrev name_or_empty : Option Text → Text
  name_or_empty none = []
  name_or_empty (some name) = name

  -- `ResolvesServerCert::resolve`, by the server name of the client hello.
  unfoldable pub resolve : CertTable → Option Text → Option CertifiedKey
  resolve table server_name =
      let sni = name_or_empty server_name in
      if is_empty sni then some table.fallback else some (lookup_sni table sni)

  -- `MultiCertResolver::reload`; the table before it is the state.
  unfoldable pub reload :
      List CertSpec → CertTable → Checked (Result TlsError (Unit {0}) × CertTable)
  reload specs table = elim (build_table specs) [
    | panic ↦ panic
    | done (ok t) ↦ done (ok tt, t)
    | done (err e) ↦ done (err e, table)
  ]

  -- The parts of `rustls::ServerConfig` that the code sets.
  pub record ServerSettings : Type 0 where
    pub alpn_protocols : List Text
    pub max_early_data_size : ℕ

  unfoldable pub load_server_config_with_resolver :
      TlsConfig → Checked (Result TlsError (ServerSettings × CertTable))
  load_server_config_with_resolver cfg =
      if is_empty cfg.certs then done (err no_certs) else elim (build_table cfg.certs) [
        | panic ↦ panic
        | done (err e) ↦ done (err e)
        | done (ok table) ↦ done (
            ok (
              record {
                alpn_protocols = codes "h2" ∷ codes "http/1.1" ∷ [];
                max_early_data_size = if cfg.enable_0rtt then 16 * 1024 else 0;
              },
              table,
            ))
      ]
