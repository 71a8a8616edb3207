-- ===== src/Lifecycle/Table.antt =====
-- `RouteTable` of crates/conduit-lifecycle/src/table.rs.
pub mod Lookup
pub mod Members
mod Tests
use ferroxy.Prelude.{
  ℕ, suc, ◌+◌, Bool, true, false, not, List, [], ◌∷◌, Option, none, some, all, map, ◌==◌,
  if◌then◌else◌,
}
use ferroxy.Prelude.Text.{Text, to_ascii_lowercase, is_ascii_uppercase}
use ferroxy.Prelude.Assoc.{Assoc, lookup, upsert, map_values}
use ferroxy.Http.{Http}
use ferroxy.Config.Schema.{Config}
use ferroxy.Lifecycle.Route.{Route}
use ferroxy.Lifecycle.Route
use ferroxy.Lifecycle.Bucket.{HostBucket, empty_bucket, finalise, ◌or_else◌}
use ferroxy.Lifecycle.Bucket

pub record RouteTable (h : Http) : Type 0 where
  pub by_host : Assoc (HostBucket h)
  pub wildcard : HostBucket h
  pub len : ℕ

module _ (h : Http) where
  abbrev pub empty_table : RouteTable h
  empty_table = record { by_host = []; wildcard = empty_bucket h; len = 0 }

  abbrev add_at : Option Text → Route h → RouteTable h → RouteTable h
  add_at (some host) r t = record t {
    by_host = upsert (to_ascii_lowercase host) (empty_bucket h) (Bucket.insert h r) t.by_host;
    len = t.len + 1;
  }
  add_at none r t = record t { wildcard = Bucket.insert h r t.wildcard; len = t.len + 1 }

  -- The loop over the routes.
  unfoldable pub add_routes : List (Route h) → RouteTable h → RouteTable h
  add_routes [] t = t
  add_routes (r ∷ rs) t = add_routes rs (add_at r.host r t)

  unfoldable pub build : List (Route h) → RouteTable h
  unfolding add_routes
  build rs =
      let t : RouteTable h = add_routes rs empty_table in
      record t { by_host = map_values (finalise h) t.by_host; wildcard = finalise h t.wildcard }

  unfoldable pub from_config : {T : Type 0} → Config T → RouteTable h
  unfolding build
  from_config cfg = build (map (Route.from_config h) cfg.routes)

  unfoldable pub lookup_bucket : RouteTable h → Text → Option (HostBucket h)
  lookup_bucket t host =
      if all (λ c. not (is_ascii_uppercase c)) host
      then lookup host t.by_host
      else lookup (to_ascii_lowercase host) t.by_host

  module _ (path : Text) (headers : h.HeaderMap) where
    abbrev in_bucket : Option (HostBucket h) → Option (Route h)
    in_bucket none = none
    in_bucket (some b) = Bucket.find h path headers b

    abbrev in_host : RouteTable h → Option Text → Option (Route h)
    in_host t none = none
    in_host t (some host) = in_bucket (lookup_bucket t host)

    unfoldable pub find : RouteTable h → Option Text → Option (Route h)
    unfolding lookup_bucket
    find t host = in_host t host or_else Bucket.find h path headers t.wildcard

  pub is_empty : RouteTable h → Bool
  is_empty t = t.len == 0
