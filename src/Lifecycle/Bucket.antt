-- ===== src/Lifecycle/Bucket.antt =====
-- `HostBucket` of crates/conduit-lifecycle/src/table.rs: the routes of one host, indexed by path.
pub mod Best
pub mod Build
pub mod Select
use ferroxy.Prelude.{
  ℕ, Bool, true, false, ◌&&◌, List, [], ◌∷◌, ◌++◌, Option, none, some, length, leb, if◌then◌else◌,
}
use ferroxy.Prelude.Text.{Text, text_eq, starts_with}
use ferroxy.Prelude.Assoc.{Assoc, lookup, upsert}
use ferroxy.Http.{Http}
use ferroxy.Lifecycle.Route.{Route, PathMatch, any_, prefix, exact, regex, headers_match}

pub record HostBucket (h : Http) : Type 0 where
  pub by_exact : Assoc (List (Route h))
  pub prefix_sorted : List (Text × List (Route h))
  pub regex_routes : List (Route h)
  pub any_routes : List (Route h)

infixl 20 ◌or_else◌
abbrev pub ◌or_else◌ {ℓ} : {A : Type ℓ} → Option A → Option A → Option A
none or_else o = o
some a or_else o = some a

-- `xs.iter().find(p)`
abbrev pub find_first {ℓ} : {A : Type ℓ} → (A → Bool) → List A → Option A
find_first p [] = none
find_first p (x ∷ xs) = if p x then some x else find_first p xs

abbrev pub push {ℓ} : {A : Type ℓ} → A → List A → List A
push a xs = xs ++ a ∷ []

module _ (h : Http) where
  abbrev pub empty_bucket : HostBucket h
  empty_bucket = record { by_exact = []; prefix_sorted = []; regex_routes = []; any_routes = [] }

  -- The slot of a prefix takes the route, and a prefix without a slot gets one at the end.
  unfoldable pub push_prefix :
      Text → Route h → List (Text × List (Route h)) → List (Text × List (Route h))
  push_prefix p r [] = (p, r ∷ []) ∷ []
  push_prefix p r ((q, slot) ∷ slots) =
      if text_eq q p then (q, push r slot) ∷ slots else (q, slot) ∷ push_prefix p r slots

  abbrev insert_at : PathMatch h → Route h → HostBucket h → HostBucket h
  insert_at (exact p) r b = record b { by_exact = upsert p [] (push r) b.by_exact }
  insert_at (prefix p) r b = record b { prefix_sorted = push_prefix p r b.prefix_sorted }
  insert_at (regex re) r b = record b { regex_routes = push r b.regex_routes }
  insert_at any_ r b = record b { any_routes = push r b.any_routes }

  unfoldable pub insert : Route h → HostBucket h → HostBucket h
  unfolding push_prefix
  insert r b = insert_at r.path r b

  -- A stable sort, longest prefix first.
  unfoldable pub sort_insert :
      Text × List (Route h) → List (Text × List (Route h)) → List (Text × List (Route h))
  sort_insert x [] = x ∷ []
  sort_insert x (y ∷ ys) =
      if leb (length y.0) (length x.0) then x ∷ y ∷ ys else y ∷ sort_insert x ys

  unfoldable pub sort_by_length : List (Text × List (Route h)) → List (Text × List (Route h))
  unfolding sort_insert
  sort_by_length [] = []
  sort_by_length (x ∷ xs) = sort_insert x (sort_by_length xs)

  unfoldable pub finalise : HostBucket h → HostBucket h
  unfolding sort_by_length
  finalise b = record b { prefix_sorted = sort_by_length b.prefix_sorted }

  module _ (path : Text) (headers : h.HeaderMap) where
    abbrev pub find_in : List (Route h) → Option (Route h)
    find_in slot = find_first (headers_match h headers) slot

    abbrev find_exact : Option (List (Route h)) → Option (Route h)
    find_exact none = none
    find_exact (some slot) = find_in slot

    -- The loop over the prefixes.
    unfoldable pub scan_prefixes : List (Text × List (Route h)) → Option (Route h)
    scan_prefixes [] = none
    scan_prefixes ((p, slot) ∷ slots) =
        (if starts_with path p then find_in slot else none) or_else scan_prefixes slots

    abbrev pub regex_hit : PathMatch h → Bool
    regex_hit (regex re) = h.is_match re path
    regex_hit _ = false

    unfoldable pub find : HostBucket h → Option (Route h)
    unfolding scan_prefixes
    find b =
        find_exact (lookup path b.by_exact)
        or_else scan_prefixes b.prefix_sorted
        or_else find_first (λ r. regex_hit r.path && headers_match h headers r) b.regex_routes
        or_else find_in b.any_routes
