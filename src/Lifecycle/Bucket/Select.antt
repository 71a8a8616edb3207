-- ===== src/Lifecycle/Bucket/Select.antt =====
-- `HostBucket::find` on an index built from routes is the choice among the routes themselves.
use ferroxy.Prelude.{
  ◌≡◌, refl, ◌∙◌, ap, sym, Bool, true, false, ◌&&◌, List, [], ◌∷◌, Option, none, some, length,
  if◌then◌else◌,
}
use ferroxy.Prelude.Text.{Text, text_eq, starts_with}
use ferroxy.Prelude.Assoc.{Assoc, lookup, lookup-upsert, upsert, or_default}
use ferroxy.Http.{Http}
use ferroxy.Lifecycle.Route.{Route, PathMatch, any_, prefix, exact, regex, headers_match}
use ferroxy.Lifecycle.Bucket.{
  HostBucket, empty_bucket, insert, insert_at, finalise, find, find_exact, regex_hit, find_first,
  push, find_in, ◌or_else◌,
}
use ferroxy.Lifecycle.Bucket.Best.{
  tag, untag, better, better_assoc, best, find_first-push, scan-sort,
}
use ferroxy.Lifecycle.Bucket.Build.{
  insert_all, is_exact, is_any, matching, longest, select, Keyed, Keyed-push_prefix,
  best-push_prefix, better-none, as_candidate, prefix_len, new_route,
}

or_else_assoc : {A : Type 0} (a b c : Option A) → (a or_else b) or_else c ≡ a or_else (b or_else c)
or_else_assoc none b c = refl
or_else_assoc (some a) b c = refl

or_else_none : {A : Type 0} (a : Option A) → a or_else none ≡ a
or_else_none none = refl
or_else_none (some a) = refl

module _ (h : Http) (path : Text) (headers : h.HeaderMap) where
  -- The four stages of `find`, before the sort.
  abbrev stage_exact : HostBucket h → Option (Route h)
  stage_exact b = find_exact h path headers (lookup path b.by_exact)

  abbrev stage_regex : HostBucket h → Option (Route h)
  stage_regex b = find_first (matching h path headers (regex_hit h path headers)) b.regex_routes

  abbrev stage_any : HostBucket h → Option (Route h)
  stage_any b = find_in h path headers b.any_routes

  abbrev one_at : Bool → Route h → Option (Route h)
  one_at hit r = if hit && headers_match h headers r then some r else none

  -- `c` is `b` with the route `r` added under the path matcher `m`.
  record Inserted (b c : HostBucket h) (m : PathMatch h) (r : Route h) : Type 0 where
    exact_stage : stage_exact c ≡ stage_exact b or_else one_at (is_exact h path headers m) r
    prefix_stage :
        best h path headers c.prefix_sorted
        ≡ better (best h path headers b.prefix_sorted) (
            as_candidate h path headers (prefix_len h path headers m) (headers_match h headers r) r)
    keyed : Keyed h path headers c.prefix_sorted
    regex_stage : stage_regex c ≡ stage_regex b or_else one_at (regex_hit h path headers m) r
    any_stage : stage_any c ≡ stage_any b or_else one_at (is_any h path headers m) r

  exact_slot :
      (p : Text) (r : Route h) (m : Assoc (List (Route h)))
      → find_exact h path headers (lookup path (upsert p [] (push r) m))
        ≡ find_exact h path headers (lookup path m)
          or_else (if text_eq p path && headers_match h headers r then some r else none)
  exact_slot p r m = rw (lookup-upsert p path [] (push r) m) (go (lookup path m) (text_eq p path))
    where
      go :
          (o : Option (List (Route h))) (b : Bool)
          → find_exact h path headers (if b then some (push r (or_default [] o)) else o)
            ≡ find_exact h path headers o
              or_else (if b && headers_match h headers r then some r else none)
      go none true = refl
      go none false = refl
      go (some slot) true = find_first-push (headers_match h headers) r slot
      go (some slot) false = sym (or_else_none _)

  prefix_candidate :
      (p : Text) (r : Route h)
      → tag (length p) (new_route h path headers p r)
        ≡ as_candidate h path headers
            (prefix_len h path headers (prefix p))
            (headers_match h headers r)
            r
  prefix_candidate p r = go (starts_with path p) (headers_match h headers r)
    where
      go :
          (a b : Bool)
          → tag (length p) (if a then (if b then some r else none) else none)
            ≡ as_candidate h path headers (if a then some (length p) else none) b r
      go true true = refl
      go true false = refl
      go false b = refl

  insert_at-Inserted :
      (m : PathMatch h) (r : Route h) (b : HostBucket h)
      → r.path ≡ m
      → Keyed h path headers b.prefix_sorted
      → Inserted b (insert_at h m r b) m r
  insert_at-Inserted (exact p) r b e k = record {
    exact_stage = exact_slot p r b.by_exact;
    prefix_stage = sym (better-none h path headers _);
    keyed = k;
    regex_stage = sym (or_else_none _);
    any_stage = sym (or_else_none _);
  }
  insert_at-Inserted (prefix p) r b e k = record {
    exact_stage = sym (or_else_none _);
    prefix_stage =
        best-push_prefix h path headers p r b.prefix_sorted k
        ∙ ap (better (best h path headers b.prefix_sorted)) (prefix_candidate p r);
    keyed = Keyed-push_prefix h path headers p r b.prefix_sorted k;
    regex_stage = sym (or_else_none _);
    any_stage = sym (or_else_none _);
  }
  insert_at-Inserted (regex re) r b e k = record {
    exact_stage = sym (or_else_none _);
    prefix_stage = sym (better-none h path headers _);
    keyed = k;
    regex_stage =
        find_first-push (matching h path headers (regex_hit h path headers)) r b.regex_routes
        ∙ ap (λ t. stage_regex b or_else one_at (regex_hit h path headers t) r) e;
    any_stage = sym (or_else_none _);
  }
  insert_at-Inserted any_ r b e k = record {
    exact_stage = sym (or_else_none _);
    prefix_stage = sym (better-none h path headers _);
    keyed = k;
    regex_stage = sym (or_else_none _);
    any_stage = find_first-push (headers_match h headers) r b.any_routes;
  }

  insert-Inserted :
      (r : Route h) (b : HostBucket h)
      → Keyed h path headers b.prefix_sorted
      → Inserted b (insert h r b) r.path r
  unfolding insert
  insert-Inserted r b k = insert_at-Inserted r.path r b refl k

  find_first-cons :
      (kind : PathMatch h → Bool) (r : Route h) (rs : List (Route h))
      → find_first (matching h path headers kind) (r ∷ rs)
        ≡ one_at (kind r.path) r or_else find_first (matching h path headers kind) rs
  find_first-cons kind r rs = go (kind r.path && headers_match h headers r)
    where
      go :
          (b : Bool)
          → (if b then some r else find_first (matching h path headers kind) rs)
            ≡ (if b then some r else none) or_else find_first (matching h path headers kind) rs
      go true = refl
      go false = refl

  -- After all of `rs` have been added to `b`.
  record Filled (b c : HostBucket h) (rs : List (Route h)) : Type 0 where
    exact_stage :
        stage_exact c
        ≡ stage_exact b or_else find_first (matching h path headers (is_exact h path headers)) rs
    prefix_stage :
        best h path headers c.prefix_sorted
        ≡ better (best h path headers b.prefix_sorted) (longest h path headers rs)
    regex_stage :
        stage_regex c
        ≡ stage_regex b or_else find_first (matching h path headers (regex_hit h path headers)) rs
    any_stage :
        stage_any c
        ≡ stage_any b or_else find_first (matching h path headers (is_any h path headers)) rs

  insert_all-Filled :
      (rs : List (Route h)) (b : HostBucket h)
      → Keyed h path headers b.prefix_sorted
      → Filled b (insert_all h rs b) rs
  unfolding insert_all longest
  insert_all-Filled [] b k = record {
    exact_stage = sym (or_else_none _);
    prefix_stage = sym (better-none h path headers _);
    regex_stage = sym (or_else_none _);
    any_stage = sym (or_else_none _);
  }
  insert_all-Filled (r ∷ rs) b k =
      let i = insert-Inserted r b k in
      let f = insert_all-Filled rs (insert h r b) i.keyed in
      record {
        exact_stage =
            f.exact_stage ∙ chain (is_exact h path headers) _ (stage_exact b) i.exact_stage;
        prefix_stage =
            f.prefix_stage
            ∙ ap (λ t. better t (longest h path headers rs)) i.prefix_stage
            ∙ better_assoc _ _ _;
        regex_stage =
            f.regex_stage ∙ chain (regex_hit h path headers) _ (stage_regex b) i.regex_stage;
        any_stage = f.any_stage ∙ chain (is_any h path headers) _ (stage_any b) i.any_stage;
      }
    where
      chain :
          (kind : PathMatch h → Bool) (x y : Option (Route h))
          → x ≡ y or_else one_at (kind r.path) r
          → x or_else find_first (matching h path headers kind) rs
            ≡ y or_else find_first (matching h path headers kind) (r ∷ rs)
      chain kind x y e =
          ap (λ t. t or_else find_first (matching h path headers kind) rs) e
          ∙ or_else_assoc y (one_at (kind r.path) r) (find_first (matching h path headers kind) rs)
          ∙ ap (λ t. y or_else t) (sym (find_first-cons kind r rs))

  four :
      {a b c d a' b' c' d' : Option (Route h)}
      → a ≡ a'
      → b ≡ b'
      → c ≡ c'
      → d ≡ d'
      → a or_else b or_else c or_else d ≡ a' or_else b' or_else c' or_else d'
  four p q r s = cc

  -- A bucket that is built from routes, in their order of declaration, and finalised finds what the
  -- choice among those routes is: a route with the exact path, else one with the longest prefix, else
  -- the first matching regular expression, else the first route for any path. Routes whose header
  -- predicates fail are passed over, and ties go to the route declared first.
  pub find-insert_all :
      (rs : List (Route h))
      → find h path headers (finalise h (insert_all h rs (empty_bucket h)))
        ≡ select h path headers rs
  unfolding find finalise select best better lookup
  find-insert_all rs =
      let f = insert_all-Filled rs (empty_bucket h) tt in
      four f.exact_stage (scan-sort h path headers _ ∙ ap untag f.prefix_stage) f.regex_stage
        f.any_stage
