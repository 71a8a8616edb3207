-- ===== src/Lifecycle/Upstreams.antt =====
-- `UpstreamMap` of crates/conduit-lifecycle/src/table.rs.
pub mod Build
pub mod Valid
use ferroxy.Prelude.{ℕ, List, [], ◌∷◌, Option, none, some}
use ferroxy.Prelude.Text.{Text}
use ferroxy.Prelude.Assoc.{Assoc}
use ferroxy.Prelude.Assoc
use ferroxy.Prelude.Result.{Result, ok, err}
use ferroxy.Config.Schema.{Config, UpstreamTls}
use ferroxy.Config.Schema
use ferroxy.Upstream.Breaker.{default_config}
use ferroxy.Upstream.Retry.{no_retry}
use ferroxy.Upstream.Pool.{Upstream}
use ferroxy.Upstream.Tls.{UpstreamTlsOptions, TlsLibrary, TlsLoadError, with_tls}

pub record UpstreamMap : Type 0 where
  pub by_name : Assoc Upstream

abbrev pub empty_map : UpstreamMap
empty_map = record { by_name = [] }

unfoldable pub insert : Text → Upstream → UpstreamMap → UpstreamMap
insert name u m = record { by_name = Assoc.insert name u m.by_name }

unfoldable pub get : UpstreamMap → Text → Option Upstream
get m name = Assoc.lookup name m.by_name

abbrev pub options_of : UpstreamTls → UpstreamTlsOptions
options_of t = record {
  ca = t.ca;
  client_cert = t.client_cert;
  client_key = t.client_key;
  verify = t.verify;
}

abbrev pub tls_options : Option UpstreamTls → Option UpstreamTlsOptions
tls_options none = none
tls_options (some t) = some (options_of t)

-- An upstream whose TLS set-up fails is skipped.
abbrev pub add_built : Text → Result TlsLoadError Upstream → UpstreamMap → UpstreamMap
add_built name (ok u) m = insert name u m
add_built name (err e) m = m

-- `clock name i` is the instant at which the breaker `i` of the upstream is built.
module _ (l : TlsLibrary) (clock : Text → ℕ → ℕ) where
  unfoldable pub build_one : Schema.Upstream → Result TlsLoadError Upstream
  build_one u = with_tls l no_retry u.addrs default_config (clock u.name) (tls_options u.tls)

  -- The loop over the upstreams.
  unfoldable pub add_upstreams : List Schema.Upstream → UpstreamMap → UpstreamMap
  unfolding build_one
  add_upstreams [] m = m
  add_upstreams (u ∷ us) m = add_upstreams us (add_built u.name (build_one u) m)

  unfoldable pub from_config : {T : Type 0} → Config T → UpstreamMap
  unfolding add_upstreams
  from_config cfg = add_upstreams cfg.upstreams empty_map
