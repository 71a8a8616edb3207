-- ===== src/Lifecycle/Table/Members.antt =====
-- A route that a table finds is one of those that the table was built from.
use ferroxy.Prelude.{
  ℕ, ◌≡◌, ◌∙◌, sym, subst, Bool, true, false, List, [], ◌∷◌, Option, none, some, All, Bool-cases,
  inl, inr, arith, if◌then◌else◌,
}
use ferroxy.Prelude.Text.{Text, to_ascii_lowercase}
use ferroxy.Http.{Http}
use ferroxy.Lifecycle.Route.{Route, headers_match}
use ferroxy.Lifecycle.Bucket.{find_first, ◌or_else◌, regex_hit}
use ferroxy.Lifecycle.Bucket.Best.{untag, better}
use ferroxy.Lifecycle.Bucket.Build.{
  select, longest, matching, is_exact, is_any, as_candidate, prefix_len,
}
use ferroxy.Lifecycle.Table.{build, find}
use ferroxy.Lifecycle.Table.Lookup.{
  of_host, of_no_host, host_is, is_unnamed, find-build, find-build_no_host,
}

module _ {A : Type 0} (P : A → Type 0) where
  -- The value of an option, if it has one, satisfies `P`.
  abbrev Held : Option A → Type 0
  Held none = Unit
  Held (some a) = P a

  held-some : (o : Option A) (a : A) → Held o → o ≡ some a → P a
  held-some none a x e = cc
  held-some (some b) a x e = subst Held e x

  or_else-Held : (o o' : Option A) → Held o → Held o' → Held (o or_else o')
  or_else-Held none o' x y = y
  or_else-Held (some a) o' x y = x

  find_first-Held : (p : A → Bool) (xs : List A) → All P xs → Held (find_first p xs)
  find_first-Held p [] a = tt
  find_first-Held p (x ∷ xs) a = elim (Bool-cases (p x)) [
    | inl e ↦ rw e a.0
    | inr e ↦ rw e (find_first-Held p xs a.1)
  ]

  better-Held :
      (o o' : Option (ℕ × A)) → Held (untag o) → Held (untag o') → Held (untag (better o o'))
  unfolding better
  better-Held none o' x y = y
  better-Held (some a) none x y = x
  better-Held (some a) (some b) x y = ground arith

  filter-Held : (b : Bool) (a : A) (xs : List A) → P a → All P xs → All P (if b then a ∷ xs else xs)
  filter-Held true a xs x y = (x, y)
  filter-Held false a xs x y = y

module _ (h : Http) (path : Text) (headers : h.HeaderMap) (P : Route h → Type 0) where
  candidate-Held :
      (n : Option ℕ) (b : Bool) (r : Route h)
      → P r
      → Held P (untag (as_candidate h path headers n b r))
  candidate-Held none b r x = tt
  candidate-Held (some n) true r x = x
  candidate-Held (some n) false r x = tt

  longest-Held : (rs : List (Route h)) → All P rs → Held P (untag (longest h path headers rs))
  unfolding longest
  longest-Held [] a = tt
  longest-Held (r ∷ rs) a =
      better-Held P _ _
        (candidate-Held (prefix_len h path headers r.path) (headers_match h headers r) r a.0)
        (longest-Held rs a.1)

  select-Held : (rs : List (Route h)) → All P rs → Held P (select h path headers rs)
  unfolding select
  select-Held rs a =
      or_else-Held P _ _
        (or_else-Held P _ _
          (or_else-Held P _ _
            (find_first-Held P (matching h path headers (is_exact h path headers)) rs a)
            (longest-Held rs a))
          (find_first-Held P (matching h path headers (regex_hit h path headers)) rs a))
        (find_first-Held P (matching h path headers (is_any h path headers)) rs a)

  of_host-Held : (key : Text) (rs : List (Route h)) → All P rs → All P (of_host h key rs)
  unfolding of_host
  of_host-Held key [] a = tt
  of_host-Held key (r ∷ rs) a =
      filter-Held P (host_is h key r.host) r (of_host h key rs) a.0 (of_host-Held key rs a.1)

  of_no_host-Held : (rs : List (Route h)) → All P rs → All P (of_no_host h rs)
  unfolding of_no_host
  of_no_host-Held [] a = tt
  of_no_host-Held (r ∷ rs) a =
      filter-Held P (is_unnamed h r.host) r (of_no_host h rs) a.0 (of_no_host-Held rs a.1)

  -- What holds of all routes holds of the route that is found.
  pub find-build-All :
      (rs : List (Route h)) (host : Option Text) (r : Route h)
      → All P rs
      → find h path headers (build h rs) host ≡ some r
      → P r
  find-build-All rs none r a e =
      held-some P _ r (select-Held (of_no_host h rs) (of_no_host-Held rs a))
        (sym (find-build_no_host h path headers rs) ∙ e)
  find-build-All rs (some host) r a e =
      let key = to_ascii_lowercase host in
      held-some P _ r
        (or_else-Held P _ _ (select-Held (of_host h key rs) (of_host-Held key rs a))
          (select-Held (of_no_host h rs) (of_no_host-Held rs a)))
        (sym (find-build h path headers rs host) ∙ e)
