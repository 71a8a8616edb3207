-- ===== src/Http.antt =====
-- What the program takes from the crates `http`, `regex` and `hyper`, none of which is in the
-- repository: the types of header maps, URIs and bodies, and the calls that the program makes.
pub mod Sample
use ferroxy.Prelude.{ℕ, ◌≡◌, ◌≢◌, Bool, true, Option, none, some}
use ferroxy.Prelude.Text.{Text}

-- `http::uri::Parts`
pub record UriParts : Type 0 where
  pub scheme : Option Text
  pub authority : Option Text
  pub path_and_query : Option Text

pub record Http : Type 1 where
  pub HeaderMap : Type 0
  pub HeaderName : Type 0
  pub HeaderValue : Type 0
  -- `HeaderName::try_from` and `HeaderValue::try_from`
  pub try_name : Text → Option HeaderName
  pub try_value : Text → Option HeaderValue
  pub host_name : HeaderName
  pub value_eq : HeaderValue → HeaderValue → Bool
  -- `HeaderValue::to_str`
  pub to_str : HeaderValue → Option Text
  pub get : HeaderMap → HeaderName → Option HeaderValue
  pub remove : HeaderMap → HeaderName → HeaderMap
  pub Uri : Type 0
  pub uri_path : Uri → Text
  pub into_parts : Uri → UriParts
  pub from_parts : UriParts → Option Uri
  pub Regex : Type 0
  -- `Regex::new`
  pub compile : Text → Option Regex
  pub is_match : Regex → Text → Bool
  -- `hyper::body::Incoming`
  pub Incoming : Type 0

-- What the documentation of `http` promises of the calls above.
pub record HttpLaws (h : Http) : Type 0 where
  pub get-remove : (m : h.HeaderMap) (n : h.HeaderName) → h.get (h.remove m n) n ≡ none
  pub into_parts-from_parts :
      (p : UriParts) (u : h.Uri) → h.from_parts p ≡ some u → h.into_parts u ≡ p
