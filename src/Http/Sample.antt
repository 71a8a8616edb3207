-- ===== src/Http/Sample.antt =====
-- A small HTTP library: header maps are association lists, a URI is its parts, and a regular
-- expression is the text that it matches. It shows that `HttpLaws` can hold, and the tests run on it.
use ferroxy.Prelude.{◌≡◌, refl, [], ◌∷◌, Option, none, some, arith, if◌then◌else◌}
use ferroxy.Prelude.Text.{Text, text_eq, codes}
use ferroxy.Prelude.Assoc.{Assoc, lookup}
use ferroxy.Http.{Http, HttpLaws, UriParts}

unfoldable pub without : Text → Assoc Text → Assoc Text
without k [] = []
without k ((j, v) ∷ m) = let rest = without k m in if text_eq j k then rest else (j, v) ∷ rest

abbrev path_of : Option Text → Text
path_of none = codes "/"
path_of (some p) = p

abbrev pub sample_http : Http
sample_http = record {
  HeaderMap = Assoc Text;
  HeaderName = Text;
  HeaderValue = Text;
  try_name = some;
  try_value = some;
  host_name = codes "host";
  value_eq = text_eq;
  to_str = some;
  get = λ m n. lookup n m;
  remove = λ m n. without n m;
  Uri = UriParts;
  uri_path = λ u. path_of u.path_and_query;
  into_parts = λ u. u;
  from_parts = some;
  Regex = Text;
  compile = some;
  is_match = text_eq;
  Incoming = Text;
}

lookup-without : (m : Assoc Text) (n : Text) → lookup n (without n m) ≡ none
unfolding lookup without
lookup-without [] n = refl
lookup-without ((j, v) ∷ m) n = ground (arith, lookup-without m n)

pub sample_http_laws : HttpLaws sample_http
sample_http_laws = record { get-remove = lookup-without; into_parts-from_parts = λ p u e. cc }
