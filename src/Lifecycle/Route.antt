-- ===== src/Lifecycle/Route.antt =====
-- `Route` and `PathMatch` of crates/conduit-lifecycle/src/table.rs. Times count nanoseconds.
use ferroxy.Prelude.{ℕ, Bool, true, false, ◌&&◌, List, [], ◌∷◌, Option, none, some}
use ferroxy.Prelude.Text.{Text}
use ferroxy.Http.{Http}
use ferroxy.Config.Schema.{HeaderMatch, RouteMatch}
use ferroxy.Config.Schema

pub data PathMatch (h : Http) : Type 0 where
  any_ : PathMatch h
  prefix : Text → PathMatch h
  exact : Text → PathMatch h
  regex : h.Regex → PathMatch h

pub record Route (h : Http) : Type 0 where
  pub host : Option Text
  pub path : PathMatch h
  pub header_matches : List (h.HeaderName × h.HeaderValue)
  pub upstream : Text
  pub total_timeout : ℕ
  pub read_timeout : ℕ

module _ (h : Http) where
  abbrev value_is : h.HeaderValue → Option h.HeaderValue → Bool
  value_is want none = false
  value_is want (some got) = h.value_eq got want

  -- The loop of `headers_match`.
  unfoldable pub all_present : h.HeaderMap → List (h.HeaderName × h.HeaderValue) → Bool
  all_present headers [] = true
  all_present headers ((name, want) ∷ preds) =
      value_is want (h.get headers name) && all_present headers preds

  unfoldable pub headers_match : h.HeaderMap → Route h → Bool
  unfolding all_present
  headers_match headers r = all_present headers r.header_matches

  abbrev of_regex : Option h.Regex → PathMatch h
  of_regex none = any_
  of_regex (some re) = regex re

  abbrev pub path_of : Option Text → Option Text → Option Text → PathMatch h
  path_of (some s) _ _ = exact s
  path_of none (some s) _ = prefix s
  path_of none none (some s) = of_regex (h.compile s)
  path_of none none none = any_

  abbrev keep :
      Option h.HeaderName
      → Option h.HeaderValue
      → List (h.HeaderName × h.HeaderValue)
      → List (h.HeaderName × h.HeaderValue)
  keep (some name) (some value) rest = (name, value) ∷ rest
  keep _ _ rest = rest

  -- The `filter_map` over the header predicates: one that does not translate is dropped.
  unfoldable pub translate : List HeaderMatch → List (h.HeaderName × h.HeaderValue)
  translate [] = []
  translate (m ∷ ms) = keep (h.try_name m.name) (h.try_value m.value) (translate ms)

  unfoldable pub from_config : {T : Type 0} → Schema.Route T → Route h
  unfolding translate
  from_config cfg = record {
    host = cfg.match_.host;
    path = path_of cfg.match_.path_exact cfg.match_.path_prefix cfg.match_.path_regex;
    header_matches = translate cfg.match_.headers;
    upstream = cfg.upstream;
    total_timeout = cfg.timeouts.total;
    read_timeout = cfg.timeouts.read;
  }
