-- ===== src/Lifecycle/Bucket/Build.antt =====
-- A bucket built by inserting routes answers as the plain list of those routes does.
use ferroxy.Prelude.{
  ℕ, ◌≡◌, refl, ◌≢◌, sym, Bool, true, false, ◌&&◌, List, [], ◌∷◌, Option, none, some, All, length,
  arith, if◌then◌else◌, Bool-cases, inl, inr,
}
use ferroxy.Prelude.Text.{Text, text_eq, text_eq_iff, starts_with, starts_with_unique}
use ferroxy.Http.{Http}
use ferroxy.Lifecycle.Route.{Route, PathMatch, any_, prefix, exact, headers_match}
use ferroxy.Lifecycle.Bucket.{
  HostBucket, insert, regex_hit, find_first, push, push_prefix, find_in, ◌or_else◌,
}
use ferroxy.Lifecycle.Bucket.Best.{
  Slot, tag, untag, better, better_assoc, best, slot_route, find_first-push,
}

-- The routes are inserted in the order of declaration.
unfoldable pub insert_all : (h : Http) → List (Route h) → HostBucket h → HostBucket h
insert_all h [] b = b
insert_all h (r ∷ rs) b = insert_all h rs (insert h r b)

module _ (h : Http) (path : Text) (headers : h.HeaderMap) where
  abbrev pub is_exact : PathMatch h → Bool
  is_exact (exact p) = text_eq p path
  is_exact _ = false

  abbrev pub is_any : PathMatch h → Bool
  is_any any_ = true
  is_any _ = false

  abbrev pub prefix_len : PathMatch h → Option ℕ
  prefix_len (prefix p) = if starts_with path p then some (length p) else none
  prefix_len _ = none

  abbrev pub matching : (PathMatch h → Bool) → Route h → Bool
  matching kind r = kind r.path && headers_match h headers r

  abbrev pub as_candidate : Option ℕ → Bool → Route h → Option (ℕ × Route h)
  as_candidate (some n) true r = some (n, r)
  as_candidate _ _ r = none

  abbrev pub candidate : Route h → Option (ℕ × Route h)
  candidate r = as_candidate (prefix_len r.path) (headers_match h headers r) r

  -- Of the prefix routes that match, the first one with a prefix of greatest length.
  unfoldable pub longest : List (Route h) → Option (ℕ × Route h)
  longest [] = none
  longest (r ∷ rs) = better (candidate r) (longest rs)

  -- The choice among the routes in declaration order: exact path, else longest prefix, else regular
  -- expression, else any path; the first route of its kind whose headers match.
  unfoldable pub select : List (Route h) → Option (Route h)
  select rs =
      find_first (matching is_exact) rs
      or_else untag (longest rs)
      or_else find_first (matching (regex_hit h path headers)) rs
      or_else find_first (matching is_any) rs

  -- No two slots have the same prefix.
  abbrev pub Keyed : List (Slot h path headers) → Type 0
  Keyed [] = Unit
  Keyed ((p, slot) ∷ xs) = All (λ (y : Slot h path headers). y.0 ≢ p) xs × Keyed xs

  All-push_prefix :
      (q p : Text) (r : Route h) (xs : List (Slot h path headers))
      → p ≢ q
      → All (λ (y : Slot h path headers). y.0 ≢ q) xs
      → All (λ (y : Slot h path headers). y.0 ≢ q) (push_prefix h p r xs)
  unfolding push_prefix
  All-push_prefix q p r [] n a = (n, tt)
  All-push_prefix q p r ((k, slot) ∷ xs) n a = ground (arith, All-push_prefix q p r xs)

  pub Keyed-push_prefix :
      (p : Text) (r : Route h) (xs : List (Slot h path headers))
      → Keyed xs
      → Keyed (push_prefix h p r xs)
  unfolding push_prefix
  Keyed-push_prefix p r [] k = (tt, tt)
  Keyed-push_prefix p r ((q, slot) ∷ xs) k = elim (Bool-cases (text_eq q p)) [
    | inl e ↦ rw e k
    | inr e ↦
        let ne : p ≢ q = λ x. cc ((text_eq_iff q p).1 (sym x)) in
        rw e (All-push_prefix q p r xs ne k.0, Keyed-push_prefix p r xs k.1)
  ]

  best-ne :
      (p : Text) (m : ℕ) (s : Route h) (xs : List (Slot h path headers))
      → starts_with path p ≡ true
      → All (λ (y : Slot h path headers). y.0 ≢ p) xs
      → best h path headers xs ≡ some (m, s)
      → m ≢ length p
  unfolding best better
  best-ne p m s [] w a e = cc
  best-ne p m s ((q, slot) ∷ xs) w a e = elim (Bool-cases (starts_with path q)) [
    | inl v ↦
        go (find_in h path headers slot) (best h path headers xs) (rw v at e)
          (λ k t e'. best-ne p k t xs w a.1 e') (λ l. a.0 (starts_with_unique path q p v w l))
    | inr v ↦ best-ne p m s xs w a.1 (rw v at e)
  ]
    where
      go :
          (x : Option (Route h)) (o : Option (ℕ × Route h))
          → better (tag (length q) x) o ≡ some (m, s)
          → ((k : ℕ) (t : Route h) → o ≡ some (k, t) → k ≢ length p)
          → length q ≢ length p
          → m ≢ length p
      go none none e f n = cc
      go none (some (k, t)) e f n = f m s e
      go (some x) none e f n = ground arith
      go (some x) (some (k, t)) e f n = ground (arith, f k t refl)

  abbrev pub new_route : Text → Route h → Option (Route h)
  new_route p r =
      if starts_with path p then (if headers_match h headers r then some r else none) else none

  pub better-none : (a : Option (ℕ × Route h)) → better a none ≡ a
  unfolding better
  better-none none = refl
  better-none (some a) = refl

  -- A new route in the slot of its prefix, with the other slots behind it.
  better_same_slot :
      (n : ℕ) (x y : Option (Route h)) (o : Option (ℕ × Route h))
      → ((m : ℕ) (s : Route h) → y ≢ none → o ≡ some (m, s) → m ≢ n)
      → better (tag n (x or_else y)) o ≡ better (better (tag n x) o) (tag n y)
  unfolding better
  better_same_slot n none none none f = refl
  better_same_slot n none none (some o) f = refl
  better_same_slot n none (some y) none f = refl
  better_same_slot n none (some y) (some (m, s)) f =
      let ne : m ≢ n = f m s (λ e. cc) refl in ground arith
  better_same_slot n (some x) none none f = refl
  better_same_slot n (some x) none (some (m, s)) f = ground arith
  better_same_slot n (some x) (some y) none f = ground arith
  better_same_slot n (some x) (some y) (some (m, s)) f = ground arith

  pub best-push_prefix :
      (p : Text) (r : Route h) (xs : List (Slot h path headers))
      → Keyed xs
      → best h path headers (push_prefix h p r xs)
        ≡ better (best h path headers xs) (tag (length p) (new_route p r))
  unfolding best push_prefix better
  best-push_prefix p r [] k = better-none _
  best-push_prefix p r ((q, slot) ∷ xs) k = elim (Bool-cases (text_eq q p)) [
    | inl e ↦ rw e (same ((text_eq_iff q p).0 e) (starts_with path p) refl)
    | inr e ↦
        rw (e, best-push_prefix p r xs k.1)
          (sym (
            better_assoc (tag (length q) (slot_route h path headers (q, slot)))
              (best h path headers xs) (tag (length p) (new_route p r))))
  ]
    where
      same :
          q ≡ p
          → (b : Bool) → starts_with path p ≡ b
          → better
              (tag (length q) (slot_route h path headers (q, push r slot)))
              (best h path headers xs)
            ≡ better
                (better
                  (tag (length q) (slot_route h path headers (q, slot)))
                  (best h path headers xs))
                (tag (length p) (new_route p r))
      same e true w =
          rw (e, w, find_first-push (headers_match h headers) r slot)
            (better_same_slot (length p) (find_in h path headers slot)
              (if headers_match h headers r then some r else none) (best h path headers xs)
              (λ m s n o. best-ne p m s xs w (rw e at k.0) o))
      same e false w = rw (e, w) (sym (better-none _))
