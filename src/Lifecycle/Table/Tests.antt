-- ===== src/Lifecycle/Table/Tests.antt =====
-- A table with two hosts and a route for any host.
use ferroxy.Prelude.{◌≡◌, refl, List, [], ◌∷◌, Option, none, some}
use ferroxy.Prelude.Text.{Text, codes, text_eq, starts_with, to_ascii_lowercase}
use ferroxy.Prelude.Assoc.{lookup}
use ferroxy.Http.Sample.{sample_http}
use ferroxy.Lifecycle.Route.{Route, PathMatch, any_, prefix, headers_match, all_present}
use ferroxy.Lifecycle.Bucket.{◌or_else◌}
use ferroxy.Lifecycle.Bucket.Build.{select, longest}
use ferroxy.Lifecycle.Bucket.Best.{better}
use ferroxy.Lifecycle.Table.{build, find}
use ferroxy.Lifecycle.Table.Lookup.{of_host, of_no_host, find-build}

abbrev route_to :
    Text → Option Text → PathMatch sample_http → List (Text × Text) → Route sample_http
route_to upstream host path headers = record {
  host = host;
  path = path;
  header_matches = headers;
  upstream = upstream;
  total_timeout = 60;
  read_timeout = 30;
}

abbrev fallback : Route sample_http
fallback = route_to (codes "fallback") none any_ []

abbrev short : Route sample_http
short = route_to (codes "short") (some (codes "Example.com")) (prefix (codes "/a")) []

-- The longest prefix, which wants a header.
abbrev picky : Route sample_http
picky =
    route_to (codes "picky") (some (codes "example.com")) (prefix (codes "/a/b/c"))
      ((codes "x-env", codes "test") ∷ [])

abbrev long : Route sample_http
long = route_to (codes "long") (some (codes "example.com")) (prefix (codes "/a/b")) []

abbrev routes : List (Route sample_http)
routes = fallback ∷ short ∷ picky ∷ long ∷ []

-- Of the three prefixes that match, the longest fails on its header.
takes_long : select sample_http (codes "/a/b/c/d") [] routes ≡ some long
unfolding select longest better starts_with headers_match all_present lookup text_eq
takes_long = refl

takes_fallback : select sample_http (codes "/other") [] routes ≡ some fallback
unfolding select longest better starts_with headers_match all_present lookup text_eq
takes_fallback = refl

find-build_example :
    find sample_http (codes "/a/b/c/d") [] (build sample_http routes) (some (codes "EXAMPLE.com"))
    ≡ select sample_http
        (codes "/a/b/c/d")
        []
        (of_host sample_http (to_ascii_lowercase (codes "EXAMPLE.com")) routes)
      or_else select sample_http (codes "/a/b/c/d") [] (of_no_host sample_http routes)
find-build_example = find-build sample_http (codes "/a/b/c/d") [] routes (codes "EXAMPLE.com")
