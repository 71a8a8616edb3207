-- ===== src/Config/Validate/Sound.antt =====
-- `check_logic` accepts exactly the valid configurations.
use ferroxy.Prelude.{
  ℕ, ◌+◌, ◌≡◌, refl, ◌≢◌, ◌↔◌, ◌⊎◌, inl, inr, Bool, true, false, List, [], ◌∷◌, Option, none, some,
  All, is_empty, arith, subst, sym,
}
use ferroxy.Prelude.Text.{Text, text_eq_iff}
use ferroxy.Prelude.Result.{Result, ok, err, ◌>>=◌, ◌>>◌, fail_if}
use ferroxy.Config.Schema.{
  Config, TlsConfig, Upstream, UpstreamTls, HealthCheck, Route, RetryPolicy,
}
use ferroxy.Config.Error.{ConfigError, no_routes}
use ferroxy.Config.Validate.{
  ValidationOptions, Checked, contains, needs_tls, check_tls, check_health, check_upstream,
  check_upstreams, check_retry, check_route, check_routes, check_listeners, check_logic,
}
use ferroxy.Config.Validate.Rules.{
  OnSome, Listed, Distinct, TlsRules, HealthRules, UpstreamRules, RouteRules, ListenerRules, names,
  IsValidConfig,
}

pub contains_iff : (ns : List Text) (n : Text) → (contains ns n ≡ true) ↔ Listed n ns
contains_iff [] n = (λ e. cc, λ e. absurd e)
contains_iff (m ∷ ns) n = ground (arith, contains_iff ns n, text_eq_iff m n)

check_tls_iff :
    (opts : ValidationOptions) (name : Text) (t : Option UpstreamTls)
    → (check_tls opts name t ≡ ok tt) ↔ OnSome (TlsRules opts) t
unfolding check_tls
check_tls_iff opts name none = (λ e. tt, λ e. refl)
check_tls_iff opts name (some t) = ground arith

check_health_iff :
    (name : Text) (hc : Option HealthCheck) → (check_health name hc ≡ ok tt) ↔ OnSome HealthRules hc
unfolding check_health
check_health_iff name none = (λ e. tt, λ e. refl)
check_health_iff name (some hc) = ground arith

check_upstream_iff :
    (opts : ValidationOptions) (i : ℕ) (seen : List Text) (u : Upstream)
    → (check_upstream opts i seen u ≡ ok tt) ↔ ((¬ Listed u.name seen) × UpstreamRules opts u)
unfolding check_upstream
check_upstream_iff opts i seen u = ground (
  arith,
  contains_iff seen u.name,
  check_tls_iff opts u.name u.tls,
  check_health_iff u.name u.health_check,
)

check_retry_iff :
    (i : ℕ) (r : Option RetryPolicy)
    → (check_retry i r ≡ ok tt) ↔ OnSome (λ (p : RetryPolicy). p.attempts ≢ 0) r
unfolding check_retry
check_retry_iff i none = (λ e. tt, λ e. refl)
check_retry_iff i (some r) = ground arith

check_route_iff :
    {T : Type 0} (seen : List Text) (i : ℕ) (r : Route T)
    → (check_route seen i r ≡ ok tt) ↔ RouteRules seen r
unfolding check_route
check_route_iff seen i r = ground (arith, contains_iff seen r.upstream, check_retry_iff i r.retry)

check_routes_iff :
    {T : Type 0} (seen : List Text) (i : ℕ) (rs : List (Route T))
    → (check_routes seen i rs ≡ ok tt) ↔ All (RouteRules seen) rs
unfolding check_routes
check_routes_iff seen i [] = (λ e. tt, λ e. refl)
check_routes_iff seen i (r ∷ rs) =
    ground (arith, check_route_iff seen i r, check_routes_iff seen (i + 1) rs)

check_listeners_iff :
    (needed : Bool) (t : Option TlsConfig)
    → (check_listeners needed t ≡ ok tt) ↔ ListenerRules needed t
unfolding check_listeners
check_listeners_iff needed none = ground arith
check_listeners_iff needed (some t) = ground arith

-- Inversion of two checks in a row.
seq-eq-ok :
    {A : Type 0} (m : Checked) (k : Result ConfigError A) (a : A)
    → (m >> k) ≡ ok a
    → (m ≡ ok tt) × (k ≡ ok a)
seq-eq-ok (ok tt) k a e = (refl, e)
seq-eq-ok (err x) k a e = cc

-- The set of names after the loop over the upstreams.
gather : List Text → List Upstream → List Text
gather seen [] = seen
gather seen (u ∷ us) = gather (u.name ∷ seen) us

abbrev Fresh : List Text → List Text → Type 0
Fresh seen ns = All (λ n. ¬ Listed n seen) ns

Fresh-cons :
    (n : Text) (seen ns : List Text) → Fresh (n ∷ seen) ns ↔ ((¬ Listed n ns) × Fresh seen ns)
Fresh-cons n seen [] = (λ e. (λ x. x, tt), λ e. tt)
Fresh-cons n seen (m ∷ ns) =
    let ih = Fresh-cons n seen ns in
    (
      λ f. (split f (ih.0 f.1).0, (λ x. f.0 (inr x), (ih.0 f.1).1)),
      λ g. (join g, ih.1 (λ x. g.0 (inr x), g.1.1)),
    )
  where
    split : Fresh (n ∷ seen) (m ∷ ns) → ¬ Listed n ns → ¬ Listed n (m ∷ ns)
    split f k (inl e) = f.0 (inl (sym e))
    split f k (inr x) = k x

    join : (¬ Listed n (m ∷ ns)) × Fresh seen (m ∷ ns) → ¬ Listed m (n ∷ seen)
    join g (inl e) = g.0 (inl (sym e))
    join g (inr x) = g.1.0 x

Fresh-nil : (ns : List Text) → Fresh [] ns
Fresh-nil [] = tt
Fresh-nil (n ∷ ns) = (λ x. x, Fresh-nil ns)

Listed-gather :
    (n : Text) (seen : List Text) (us : List Upstream)
    → Listed n (gather seen us) ↔ (Listed n seen ⊎ Listed n (names us))
unfolding gather
Listed-gather n seen [] = (λ x. inl x, λ x. elim x [ inl a ↦ a | inr b ↦ absurd b ])
Listed-gather n seen (u ∷ us) =
    let ih = Listed-gather n (u.name ∷ seen) us in (λ x. there (ih.0 x), λ x. ih.1 (back x))
  where
    there :
        Listed n (u.name ∷ seen) ⊎ Listed n (names us) → Listed n seen ⊎ Listed n (names (u ∷ us))
    there (inl (inl e)) = inr (inl e)
    there (inl (inr x)) = inl x
    there (inr x) = inr (inr x)

    back :
        Listed n seen ⊎ Listed n (names (u ∷ us)) → Listed n (u.name ∷ seen) ⊎ Listed n (names us)
    back (inl x) = inl (inr x)
    back (inr (inl e)) = inl (inl e)
    back (inr (inr x)) = inr x

abbrev UpstreamsOk : ValidationOptions → List Text → List Upstream → Type 0
UpstreamsOk opts seen us = Fresh seen (names us) × Distinct (names us) × All (UpstreamRules opts) us

check_upstreams-eq-ok :
    (opts : ValidationOptions) (i : ℕ) (seen s : List Text) (us : List Upstream)
    → check_upstreams opts i seen us ≡ ok s
    → (s ≡ gather seen us) × UpstreamsOk opts seen us
unfolding check_upstreams gather
check_upstreams-eq-ok opts i seen s [] e = (cc, (tt, tt, tt))
check_upstreams-eq-ok opts i seen s (u ∷ us) e =
    let (first, rest) =
      seq-eq-ok (check_upstream opts i seen u) (check_upstreams opts (i + 1) (u.name ∷ seen) us) s
        e in
    let (fresh_u, rules) = (check_upstream_iff opts i seen u).0 first in
    let (same, oks) = check_upstreams-eq-ok opts (i + 1) (u.name ∷ seen) s us rest in
    let (fresh, distinct, all) = oks in
    let (apart, fresh') = (Fresh-cons u.name seen (names us)).0 fresh in
    (same, ((fresh_u, fresh'), (apart, distinct), (rules, all)))

check_upstreams-ok :
    (opts : ValidationOptions) (i : ℕ) (seen : List Text) (us : List Upstream)
    → UpstreamsOk opts seen us
    → check_upstreams opts i seen us ≡ ok (gather seen us)
unfolding check_upstreams gather
check_upstreams-ok opts i seen [] v = refl
check_upstreams-ok opts i seen (u ∷ us) ((fresh_u, fresh), (apart, distinct), (rules, all)) =
    rw ((check_upstream_iff opts i seen u).1 (fresh_u, rules)) (
      check_upstreams-ok opts (i + 1) (u.name ∷ seen) us
        ((Fresh-cons u.name seen (names us)).1 (apart, fresh), distinct, all))

RouteRules-mono :
    {T : Type 0} (ns ms : List Text)
    → ((n : Text) → Listed n ns → Listed n ms)
    → (rs : List (Route T)) → All (RouteRules ns) rs
    → All (RouteRules ms) rs
RouteRules-mono ns ms f [] a = tt
RouteRules-mono ns ms f (r ∷ rs) a = (
  record {
    upstream_declared = f r.upstream a.0.upstream_declared;
    constrained = a.0.constrained;
    one_path = a.0.one_path;
    retries = a.0.retries;
  },
  RouteRules-mono ns ms f rs a.1,
)

bind-eq-ok :
    {A B : Type 0} (m : Result ConfigError A) (f : A → Result ConfigError B) (b : B)
    → (m >>= f) ≡ ok b
    → (a : A) × (m ≡ ok a) × (f a ≡ ok b)
bind-eq-ok (ok a) f b e = (a, refl, e)
bind-eq-ok (err x) f b e = cc

fail_if-eq-ok : (b : Bool) (x : ConfigError) → fail_if b x ≡ ok tt → b ≡ false
fail_if-eq-ok true x e = cc
fail_if-eq-ok false x e = refl

-- Every configuration that `check_logic` accepts is valid.
pub check_logic_sound :
    {T : Type 0} (cfg : Config T) (opts : ValidationOptions)
    → check_logic cfg opts ≡ ok tt
    → IsValidConfig opts cfg
unfolding check_logic
check_logic_sound cfg opts e =
    let (some_, e₁) = seq-eq-ok (fail_if (is_empty cfg.routes) no_routes) _ tt e in
    let (seen, us, e₂) = bind-eq-ok (check_upstreams opts 0 [] cfg.upstreams) _ tt e₁ in
    let (rs, ls) = seq-eq-ok (check_routes seen 0 cfg.routes) _ tt e₂ in
    let (same, oks) = check_upstreams-eq-ok opts 0 [] seen cfg.upstreams us in
    let (fresh, distinct, rules) = oks in
    record {
      has_routes = fail_if-eq-ok (is_empty cfg.routes) no_routes some_;
      names_distinct = distinct;
      upstream_rules = rules;
      route_rules =
          RouteRules-mono seen (names cfg.upstreams) (λ n x. found n (subst (Listed n) same x))
            cfg.routes ((check_routes_iff seen 0 cfg.routes).0 rs);
      listener_rules = (check_listeners_iff (needs_tls cfg.server) cfg.tls).0 ls;
    }
  where
    found : (n : Text) → Listed n (gather [] cfg.upstreams) → Listed n (names cfg.upstreams)
    found n x = elim ((Listed-gather n [] cfg.upstreams).0 x) [ inl a ↦ absurd a | inr b ↦ b ]

-- Every valid configuration is accepted by `check_logic`.
pub check_logic_complete :
    {T : Type 0} (cfg : Config T) (opts : ValidationOptions)
    → IsValidConfig opts cfg
    → check_logic cfg opts ≡ ok tt
unfolding check_logic
check_logic_complete cfg opts v =
    let us =
      check_upstreams-ok opts 0 [] cfg.upstreams
        (Fresh-nil (names cfg.upstreams), v.names_distinct, v.upstream_rules) in
    let seen = gather [] cfg.upstreams in
    let rs = (check_routes_iff seen 0 cfg.routes).1 (
      RouteRules-mono (names cfg.upstreams) seen
        (λ n x. (Listed-gather n [] cfg.upstreams).1 (inr x)) cfg.routes v.route_rules) in
    let ls = (check_listeners_iff (needs_tls cfg.server) cfg.tls).1 v.listener_rules in
    rw (v.has_routes, us, rs) ls
