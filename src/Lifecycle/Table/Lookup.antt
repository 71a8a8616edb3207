-- ===== src/Lifecycle/Table/Lookup.antt =====
-- Lookups by host in a `RouteTable` that `build` made.
use ferroxy.Prelude.{
  ◌+◌, ◌≡◌, refl, ◌∙◌, ap, Bool, true, false, not, List, [], ◌∷◌, Option, none, some, all, length,
  arith, if◌then◌else◌, Bool-cases, inl, inr,
}
use ferroxy.Prelude.Text.{
  Text, text_eq, to_ascii_lowercase, is_ascii_uppercase, to_ascii_lowercase-of_lower,
}
use ferroxy.Prelude.Assoc.{Assoc, lookup, lookup-upsert, map_values, or_default}
use ferroxy.Http.{Http}
use ferroxy.Lifecycle.Route.{Route}
use ferroxy.Lifecycle.Bucket.{HostBucket, empty_bucket, finalise, ◌or_else◌}
use ferroxy.Lifecycle.Bucket
use ferroxy.Lifecycle.Bucket.Build.{insert_all, select, longest}
use ferroxy.Lifecycle.Bucket.Select.{find-insert_all}
use ferroxy.Lifecycle.Table.{
  RouteTable, empty_table, add_at, add_routes, build, lookup_bucket, find, in_bucket,
}

module _ (h : Http) where
  -- The fast path for a host without upper-case letters changes nothing: the bucket is the one under
  -- the lower-case host.
  pub lookup_bucket_lem :
      (t : RouteTable h) (host : Text)
      → lookup_bucket h t host ≡ lookup (to_ascii_lowercase host) t.by_host
  unfolding lookup_bucket
  lookup_bucket_lem t host = elim (Bool-cases (all (λ c. not (is_ascii_uppercase c)) host)) [
    | inl e ↦ rw (e, to_ascii_lowercase-of_lower host e) refl
    | inr e ↦ rw e refl
  ]

  abbrev pub host_is : Text → Option Text → Bool
  host_is key none = false
  host_is key (some host) = text_eq (to_ascii_lowercase host) key

  abbrev pub is_unnamed : Option Text → Bool
  is_unnamed none = true
  is_unnamed (some host) = false

  -- The routes whose lower-case host is `key`.
  unfoldable pub of_host : Text → List (Route h) → List (Route h)
  of_host key [] = []
  of_host key (r ∷ rs) = let rest = of_host key rs in if host_is key r.host then r ∷ rest else rest

  -- The routes for any host.
  unfoldable pub of_no_host : List (Route h) → List (Route h)
  of_no_host [] = []
  of_no_host (r ∷ rs) = let rest = of_no_host rs in if is_unnamed r.host then r ∷ rest else rest

  abbrev joined : Option (HostBucket h) → List (Route h) → Option (HostBucket h)
  joined o [] = o
  joined o (r ∷ rs) = some (insert_all h rs (Bucket.insert h r (or_default (empty_bucket h) o)))

  joined-some :
      (b : HostBucket h) (rs : List (Route h)) → joined (some b) rs ≡ some (insert_all h rs b)
  unfolding insert_all
  joined-some b [] = refl
  joined-some b (r ∷ rs) = refl

  lookup-add_routes :
      (key : Text) (rs : List (Route h)) (t : RouteTable h)
      → lookup key (add_routes h rs t).by_host ≡ joined (lookup key t.by_host) (of_host key rs)
  unfolding add_routes of_host
  lookup-add_routes key [] t = refl
  lookup-add_routes key (r ∷ rs) t = lookup-add_routes key rs (add_at h r.host r t) ∙ go r.host
    where
      go :
          (o : Option Text)
          → joined (lookup key (add_at h o r t).by_host) (of_host key rs)
            ≡ joined
                (lookup key t.by_host)
                (if host_is key o then r ∷ of_host key rs else of_host key rs)
      go none = refl
      go (some host) =
          rw
            (lookup-upsert (to_ascii_lowercase host) key (empty_bucket h) (Bucket.insert h r)
              t.by_host)
            (hit (text_eq (to_ascii_lowercase host) key))
        where
          hit :
              (b : Bool)
              → joined
                  (if b
                    then some
                        (Bucket.insert h r (or_default (empty_bucket h) (lookup key t.by_host)))
                    else lookup key t.by_host)
                  (of_host key rs)
                ≡ joined (lookup key t.by_host) (if b then r ∷ of_host key rs else of_host key rs)
          hit true = joined-some _ (of_host key rs)
          hit false = refl

  wildcard-add_routes :
      (rs : List (Route h)) (t : RouteTable h)
      → (add_routes h rs t).wildcard ≡ insert_all h (of_no_host rs) t.wildcard
  unfolding add_routes of_no_host insert_all
  wildcard-add_routes [] t = refl
  wildcard-add_routes (r ∷ rs) t = wildcard-add_routes rs (add_at h r.host r t) ∙ go r.host
    where
      go :
          (o : Option Text)
          → insert_all h (of_no_host rs) (add_at h o r t).wildcard
            ≡ insert_all h (if is_unnamed o then r ∷ of_no_host rs else of_no_host rs) t.wildcard
      go none = refl
      go (some host) = refl

  len-add_routes :
      (rs : List (Route h)) (t : RouteTable h) → (add_routes h rs t).len ≡ t.len + length rs
  unfolding add_routes
  len-add_routes [] t = omega arith
  len-add_routes (r ∷ rs) t = len-add_routes rs (add_at h r.host r t) ∙ go r.host
    where
      go : (o : Option Text) → (add_at h o r t).len + length rs ≡ t.len + length (r ∷ rs)
      go none = omega arith
      go (some host) = omega arith

  -- The table counts every route once, whether it names a host or not.
  pub len-build : (rs : List (Route h)) → (build h rs).len ≡ length rs
  unfolding build
  len-build rs = let e = len-add_routes rs (empty_table h) in omega arith

  abbrev on_some {ℓ} : {A : Type ℓ} → (A → A) → Option A → Option A
  on_some f none = none
  on_some f (some a) = some (f a)

  lookup-map_values :
      {V : Type 0} (f : V → V) (k : Text) (m : Assoc V)
      → lookup k (map_values f m) ≡ on_some f (lookup k m)
  unfolding lookup map_values
  lookup-map_values f k [] = refl
  lookup-map_values f k ((j, v) ∷ m) = ground (arith, lookup-map_values f k m)

  module _ (path : Text) (headers : h.HeaderMap) where
    in_bucket-joined :
        (rs : List (Route h))
        → in_bucket h path headers (on_some (finalise h) (joined none rs))
          ≡ select h path headers rs
    unfolding select longest insert_all Bucket.insert
    in_bucket-joined [] = refl
    in_bucket-joined (r ∷ rs) = find-insert_all h path headers (r ∷ rs)

    both : {a b a' b' : Option (Route h)} → a ≡ a' → b ≡ b' → a or_else b ≡ a' or_else b'
    both p q = cc

    -- A request without a host is answered from the routes that name no host.
    pub find-build_no_host :
        (rs : List (Route h))
        → find h path headers (build h rs) none ≡ select h path headers (of_no_host rs)
    unfolding find build
    find-build_no_host rs =
        ap (λ b. Bucket.find h path headers (finalise h b)) (wildcard-add_routes rs (empty_table h))
        ∙ find-insert_all h path headers (of_no_host rs)

    -- In a table built from routes, a request with a host is answered from the routes that name that
    -- host, upper and lower case being the same, and only if none of those serves it from the routes
    -- that name no host; among either, the most specific path wins. No route serves
    -- a request that one of its header predicates does not hold for.
    pub find-build :
        (rs : List (Route h)) (host : Text)
        → find h path headers (build h rs) (some host)
          ≡ select h path headers (of_host (to_ascii_lowercase host) rs)
            or_else select h path headers (of_no_host rs)
    unfolding find build lookup
    find-build rs host =
        let key : Text = to_ascii_lowercase host in
        let bucket : Option (HostBucket h) = lookup key (build h rs).by_host in
        let found : lookup_bucket h (build h rs) host
            ≡ on_some (finalise h) (joined none (of_host key rs)) =
          lookup_bucket_lem (build h rs) host
          ∙ lookup-map_values (finalise h) key (add_routes h rs (empty_table h)).by_host
          ∙ ap (on_some (finalise h)) (lookup-add_routes key rs (empty_table h)) in
        both (ap (in_bucket h path headers) found ∙ in_bucket-joined (of_host key rs))
          (find-build_no_host rs)
