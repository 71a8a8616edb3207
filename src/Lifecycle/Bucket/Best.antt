-- ===== src/Lifecycle/Bucket/Best.antt =====
-- The scan of the sorted prefixes finds the longest one that leads to a route, whatever the order in
-- which the prefixes were declared.
use ferroxy.Prelude.{
  ℕ, ◌≤◌, ◌<◌, ◌≡◌, refl, ◌∙◌, ap, Bool, List, [], ◌∷◌, Option, none, some, All, length, arith, leb,
  if◌then◌else◌, Bool-cases, inl, inr,
}
use ferroxy.Prelude.Text.{Text, starts_with}
use ferroxy.Http.{Http}
use ferroxy.Lifecycle.Route.{Route}
use ferroxy.Lifecycle.Bucket.{
  find_first, push, sort_insert, sort_by_length, find_in, scan_prefixes, ◌or_else◌,
}

module _ {A : Type 0} where
  abbrev pub tag : ℕ → Option A → Option (ℕ × A)
  tag n none = none
  tag n (some a) = some (n, a)

  abbrev pub untag : Option (ℕ × A) → Option A
  untag none = none
  untag (some (n, a)) = some a

  -- The longer of two, the first where they are equally long.
  unfoldable pub better : Option (ℕ × A) → Option (ℕ × A) → Option (ℕ × A)
  better none o = o
  better (some a) none = some a
  better (some a) (some b) = if leb b.0 a.0 then some a else some b

  pub better_assoc : (a b c : Option (ℕ × A)) → better (better a b) c ≡ better a (better b c)
  unfolding better
  better_assoc none b c = refl
  better_assoc (some a) none c = refl
  better_assoc (some a) (some b) none = ground arith
  better_assoc (some a) (some b) (some c) = ground arith

  better_swap :
      (m n : ℕ) (a b : Option A) (c : Option (ℕ × A))
      → m < n
      → better (tag n b) (better (tag m a) c) ≡ better (tag m a) (better (tag n b) c)
  unfolding better
  better_swap m n none none c h = refl
  better_swap m n none (some b) c h = refl
  better_swap m n (some a) none c h = refl
  better_swap m n (some a) (some b) none h = ground arith
  better_swap m n (some a) (some b) (some c) h = ground arith

  pub find_first-push :
      (p : A → Bool) (a : A) (xs : List A)
      → find_first p (push a xs) ≡ find_first p xs or_else (if p a then some a else none)
  find_first-push p a [] = ground arith
  find_first-push p a (x ∷ xs) = ground (arith, find_first-push p a xs)

module _ (h : Http) (path : Text) (headers : h.HeaderMap) where
  abbrev pub Slot : Type 0
  Slot = Text × List (Route h)

  abbrev pub slot_route : Slot → Option (Route h)
  slot_route (p, slot) = if starts_with path p then find_in h path headers slot else none

  unfoldable pub best : List Slot → Option (ℕ × Route h)
  best [] = none
  best (x ∷ xs) = better (tag (length x.0) (slot_route x)) (best xs)

  abbrev Sorted : List Slot → Type 0
  Sorted [] = Unit
  Sorted (x ∷ xs) = All (λ (y : Slot). length y.0 ≤ length x.0) xs × Sorted xs

  best-le :
      (n m : ℕ) (r : Route h) (xs : List Slot)
      → All (λ (y : Slot). length y.0 ≤ n) xs
      → best xs ≡ some (m, r)
      → m ≤ n
  unfolding best better
  best-le n m r [] a e = cc
  best-le n m r ((p, slot) ∷ xs) a e =
      go (slot_route (p, slot)) (best xs) e (λ k s q. best-le n k s xs a.1 q)
    where
      go :
          (x : Option (Route h)) (o : Option (ℕ × Route h))
          → better (tag (length p) x) o ≡ some (m, r)
          → ((k : ℕ) (s : Route h) → o ≡ some (k, s) → k ≤ n)
          → m ≤ n
      go none none q f = cc
      go none (some (k, s)) q f = f m r q
      go (some x) none q f = ground (arith, a.0)
      go (some x) (some (k, s)) q f = ground (arith, a.0, f k s refl)

  scan-best : (xs : List Slot) → Sorted xs → scan_prefixes h path headers xs ≡ untag (best xs)
  unfolding scan_prefixes best better
  scan-best [] s = refl
  scan-best ((p, slot) ∷ xs) s =
      go (slot_route (p, slot)) (best xs) (scan-best xs s.1)
        (λ k t q. best-le (length p) k t xs s.0 q)
    where
      go :
          (x : Option (Route h)) (o : Option (ℕ × Route h))
          → scan_prefixes h path headers xs ≡ untag o
          → ((k : ℕ) (t : Route h) → o ≡ some (k, t) → k ≤ length p)
          → (x or_else scan_prefixes h path headers xs) ≡ untag (better (tag (length p) x) o)
      go none o e f = e
      go (some x) none e f = refl
      go (some x) (some (k, t)) e f = ground (arith, f k t refl)

  best-sort_insert :
      (x : Slot) (ys : List Slot)
      → best (sort_insert h x ys) ≡ better (tag (length x.0) (slot_route x)) (best ys)
  unfolding best sort_insert
  best-sort_insert x [] = refl
  best-sort_insert x (y ∷ ys) = elim (Bool-cases (leb (length y.0) (length x.0))) [
    | inl e ↦ rw e refl
    | inr e ↦
        rw (e, best-sort_insert x ys)
          (better_swap (length x.0) (length y.0) (slot_route x) (slot_route y) (best ys)
            (ground arith))
  ]

  best-sort : (xs : List Slot) → best (sort_by_length h xs) ≡ best xs
  unfolding best sort_by_length
  best-sort [] = refl
  best-sort (x ∷ xs) =
      best-sort_insert x (sort_by_length h xs)
      ∙ ap (better (tag (length x.0) (slot_route x))) (best-sort xs)

  All-sort_insert :
      (n : ℕ) (x : Slot) (ys : List Slot)
      → length x.0 ≤ n
      → All (λ (y : Slot). length y.0 ≤ n) ys
      → All (λ (y : Slot). length y.0 ≤ n) (sort_insert h x ys)
  unfolding sort_insert
  All-sort_insert n x [] p a = (p, tt)
  All-sort_insert n x (y ∷ ys) p a = ground (arith, All-sort_insert n x ys)

  All-mono :
      (m n : ℕ) (ys : List Slot)
      → m ≤ n
      → All (λ (y : Slot). length y.0 ≤ m) ys
      → All (λ (y : Slot). length y.0 ≤ n) ys
  All-mono m n [] p a = tt
  All-mono m n (y ∷ ys) p a = (omega arith, All-mono m n ys p a.1)

  Sorted-sort_insert : (x : Slot) (ys : List Slot) → Sorted ys → Sorted (sort_insert h x ys)
  unfolding sort_insert
  Sorted-sort_insert x [] s = (tt, tt)
  Sorted-sort_insert x (y ∷ ys) s = elim (Bool-cases (leb (length y.0) (length x.0))) [
    | inl e ↦
        let le : length y.0 ≤ length x.0 = ground arith in
        rw e ((le, All-mono (length y.0) (length x.0) ys le s.0), s)
    | inr e ↦
        rw e (All-sort_insert (length y.0) x ys (ground arith) s.0, Sorted-sort_insert x ys s.1)
  ]

  Sorted-sort : (xs : List Slot) → Sorted (sort_by_length h xs)
  unfolding sort_by_length
  Sorted-sort [] = tt
  Sorted-sort (x ∷ xs) = Sorted-sort_insert x (sort_by_length h xs) (Sorted-sort xs)

  pub scan-sort :
      (xs : List Slot) → scan_prefixes h path headers (sort_by_length h xs) ≡ untag (best xs)
  scan-sort xs = scan-best (sort_by_length h xs) (Sorted-sort xs) ∙ ap untag (best-sort xs)
