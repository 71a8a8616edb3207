-- ===== src/Upstream/Pool/Select.antt =====
-- `pick_addr` never panics, skips the backends whose breaker rejects, and fails only if all do.
use ferroxy.Prelude.{
  ℕ, zero, suc, ◌+◌, ◌-◌, ◌%◌, ◌≤◌, ◌<◌, ◌≡◌, refl, ◌⊎◌, inl, inr, ap, ◌∙◌, subst, List, [], ◌∷◌,
  Option, none, some, All, arith, Bool-cases, true, false, is_empty, length, get_elem?,
  get_elem?-of_lt, All-get_elem?, u64_mod,
}
use native.Mathlib.Nat.{mod-lt}
use native.Mathlib.Decide.{dec_lt}
use ferroxy.Prelude.Checked.{done}
use ferroxy.Upstream.Breaker.{Breaker, Decision, allow, reject, check}
use ferroxy.Upstream.Pool.{Upstream, SocketAddr, scan, pick_addr}

-- The arrays are parallel, and the sizes and the counter fit a `usize`.
pub record IsValid (u : Upstream) : Type 0 where
  pub breakers_parallel : length u.breakers ≡ length u.addrs
  pub authorities_parallel : length u.authorities ≡ length u.addrs
  pub fits : length u.addrs < u64_mod
  pub next_fits : u.next < u64_mod

abbrev index_at : Upstream → ℕ → ℕ → ℕ
index_at u start k = (start + k) % u64_mod % length u.addrs

abbrev Rejected : Upstream → ℕ → ℕ → ℕ → Type 0
Rejected u now start k =
    (b : Breaker) × (get_elem? u.breakers (index_at u start k) ≡ some b) × (check b now ≡ reject)

-- What the scan of the offsets from `lo` to below `hi` promises of its result.
data Found (u : Upstream) (now start lo hi : ℕ) : Option (SocketAddr × ℕ) → Type 0 where
  nobody : ((k : ℕ) → lo ≤ k → k < hi → Rejected u now start k) → Found u now start lo hi none
  backend :
      (a : SocketAddr) (k i : ℕ) (b : Breaker)
      → lo ≤ k
      → k < hi
      → i ≡ index_at u start k
      → get_elem? u.addrs i ≡ some a
      → get_elem? u.breakers i ≡ some b
      → check b now ≡ allow
      → ((j : ℕ) → lo ≤ j → j < k → Rejected u now start j)
      → Found u now start lo hi (some (a, i))

Decision-cases : (d : Decision) → (d ≡ allow) ⊎ (d ≡ reject)
Decision-cases allow = inl refl
Decision-cases reject = inr refl

earlier : (P : ℕ → Type 0) (lo k : ℕ) → P lo → (lo + 1 ≤ k → P k) → lo ≤ k → P k
earlier P lo k here later h = elim (dec_lt lo k) [
  | yes p ↦ later (omega arith)
  | no p ↦ subst P (omega arith) here
]

Found-reject :
    (u : Upstream) (now start lo hi : ℕ) (r : Option (SocketAddr × ℕ))
    → Rejected u now start lo
    → Found u now start (lo + 1) hi r
    → Found u now start lo hi r
Found-reject u now start lo hi _ here (nobody all) =
    nobody (λ k p q. earlier (Rejected u now start) lo k here (λ p'. all k p' q) p)
Found-reject u now start lo hi _ here (backend a k i b p q e ea eb ok all) =
    backend a k i b (omega arith) q e ea eb ok
      (λ j p' q'. earlier (Rejected u now start) lo j here (λ m. all j m q') p')

module _ (rounds : ℕ) (u : Upstream) (now start offset : ℕ) (b : Breaker) where
  scan-allow :
      (a : SocketAddr)
      → get_elem? u.breakers (index_at u start offset) ≡ some b
      → check b now ≡ allow
      → get_elem? u.addrs (index_at u start offset) ≡ some a
      → scan (suc rounds) u now start (length u.addrs) offset
        ≡ done (some (a, index_at u start offset))
  unfolding scan
  scan-allow a eb ok ea = ground arith

  scan-reject :
      get_elem? u.breakers (index_at u start offset) ≡ some b
      → check b now ≡ reject
      → scan (suc rounds) u now start (length u.addrs) offset
        ≡ scan rounds u now start (length u.addrs) (offset + 1)
  unfolding scan
  scan-reject eb bad = ground arith

scan-Found :
    (rounds : ℕ) (u : Upstream) (now start offset : ℕ)
    → IsValid u
    → 0 < length u.addrs
    → (r : Option (SocketAddr × ℕ)) × (scan rounds u now start (length u.addrs) offset ≡ done r)
      × Found u now start offset (offset + rounds) r
unfolding scan
scan-Found zero u now start offset v pos = (none, refl, nobody (λ k h h'. absurd (omega arith)))
scan-Found (suc rounds) u now start offset v pos =
    let i : ℕ = index_at u start offset in
    let small : i < length u.addrs = mod-lt ((start + offset) % u64_mod) pos in
    let (a, ea) = get_elem?-of_lt u.addrs i small in
    let (b, eb) = get_elem?-of_lt u.breakers i (omega arith) in
    elim (Decision-cases (check b now)) [
      | inl ok ↦ (
        some (a, i),
        scan-allow rounds u now start offset b a eb ok ea,
        backend a offset i b (omega arith) (omega arith) refl ea eb ok
            (λ j p q. absurd (omega arith)),
      )
      | inr bad ↦
          let (r, e, f) = scan-Found rounds u now start (offset + 1) v pos in
          (
            r,
            scan-reject rounds u now start offset b eb bad ∙ e,
            Found-reject u now start offset (offset + suc rounds) r (b, eb, bad)
                (subst (λ t. Found u now start (offset + 1) t r) (omega arith) f),
          )
    ]

-- On an upstream with backends, `pick_addr` returns and moves only the counter.
pick_addr-Found :
    (u : Upstream) (now : ℕ)
    → IsValid u
    → 0 < length u.addrs
    → (r : Option (SocketAddr × ℕ)) × (pick_addr u now
        ≡ done (r, record u { next = (u.next + 1) % u64_mod }))
      × Found u now u.next 0 (length u.addrs) r
unfolding pick_addr
pick_addr-Found u now v pos =
    let (r, e, f) = scan-Found (length u.addrs) u now u.next 0 v pos in
    (r, ground arith, subst (λ t. Found u now u.next 0 t r) (omega arith) f)

-- The index that is visited at some offset below the length, where the counter does not wrap.
offset_of : (start len i : ℕ) → i < len → (k : ℕ) × (k < len) × ((start + k) % len ≡ i)
offset_of start len i h = elim (dec_lt i (start % len)) [
  | yes p ↦ (i + len - start % len, grind arith, grind arith)
  | no p ↦ (i - start % len, grind arith, grind arith)
]

is_empty-pos {ℓ} : {A : Type ℓ} (xs : List A) → is_empty xs ≡ false → 0 < length xs
is_empty-pos [] h = cc
is_empty-pos (x ∷ xs) h = omega arith

pick_addr_empty :
    (u : Upstream) (now : ℕ) → is_empty u.addrs ≡ true → pick_addr u now ≡ done (none, u)
unfolding pick_addr
pick_addr_empty u now h = ground arith

advance-IsValid : {u : Upstream} → IsValid u → IsValid (record u { next = (u.next + 1) % u64_mod })
advance-IsValid v = omega arith

-- On a valid upstream `pick_addr` does not panic. It changes no part of the upstream but the
-- counter, and the upstream stays valid.
pub pick_addr_total :
    (u : Upstream) (now : ℕ)
    → IsValid u
    → (r : Option (SocketAddr × ℕ)) × (u' : Upstream) × (pick_addr u now ≡ done (r, u'))
      × (u' ≡ record u { next = u'.next })
      × IsValid u'
pick_addr_total u now v = elim (Bool-cases (is_empty u.addrs)) [
  | inl e ↦ (none, u, pick_addr_empty u now e, refl, v)
  | inr e ↦
      let (r, e', f) = pick_addr-Found u now v (is_empty-pos u.addrs e) in
      (r, record u { next = (u.next + 1) % u64_mod }, e', refl, advance-IsValid v)
]

Found-some :
    {u : Upstream} {now start lo hi : ℕ} {r : Option (SocketAddr × ℕ)} (a : SocketAddr) (i : ℕ)
    → Found u now start lo hi r
    → r ≡ some (a, i)
    → (b : Breaker) × (get_elem? u.addrs i ≡ some a)
      × (get_elem? u.breakers i ≡ some b)
      × (check b now ≡ allow)
Found-some a i (nobody all) e = cc
Found-some {u} a i (backend a' k i' b p q e ea eb ok all) h =
    let same : i' ≡ i = cc in (b, ground arith, ground arith, ok)

Found-none :
    {u : Upstream} {now start lo hi : ℕ} {r : Option (SocketAddr × ℕ)}
    → Found u now start lo hi r
    → r ≡ none
    → (k : ℕ) → lo ≤ k
    → k < hi
    → Rejected u now start k
Found-none (nobody all) e = all
Found-none (backend a k i b p q e ea eb ok all) h = cc

-- A backend that is picked from a valid upstream has a breaker that allows the request, and its
-- address and its breaker stand at the index that is returned.
pub pick_addr_sound :
    (u u' : Upstream) (now i : ℕ) (a : SocketAddr)
    → IsValid u
    → pick_addr u now ≡ done (some (a, i), u')
    → (b : Breaker) × (get_elem? u.addrs i ≡ some a)
      × (get_elem? u.breakers i ≡ some b)
      × (check b now ≡ allow)
pick_addr_sound u u' now i a v h = elim (Bool-cases (is_empty u.addrs)) [
  | inl e ↦ cc (pick_addr_empty u now e)
  | inr e ↦
      let (r, e', f) = pick_addr-Found u now v (is_empty-pos u.addrs e) in Found-some a i f (cc)
]

All-of_index {ℓ κ} :
    {A : Type ℓ} (P : A → Type κ) (xs : List A)
    → ((i : ℕ) → i < length xs → (a : A) × (get_elem? xs i ≡ some a) × P a)
    → All P xs
All-of_index P [] h = tt
All-of_index P (x ∷ xs) h =
    let (a, e, p) = h 0 (omega arith) in
    (subst P (cc) p, All-of_index P xs (λ i q. h (suc i) (omega arith)))

-- On a valid upstream whose counter does not wrap during the scan, `pick_addr` comes back without a
-- backend only if the breaker of every backend rejects the request.
pub pick_addr-none :
    (u u' : Upstream) (now : ℕ)
    → IsValid u
    → u.next + length u.addrs ≤ u64_mod
    → pick_addr u now ≡ done (none, u')
    → All (λ b. check b now ≡ reject) u.breakers
pick_addr-none u u' now v room h =
    All-of_index (λ b. check b now ≡ reject) u.breakers
      λ i p.
        let (r, e', f) = pick_addr-Found u now v (omega arith) in
        let (k, q, e) = offset_of u.next (length u.addrs) i (omega arith) in
        subst
          (λ (t : ℕ). (b : Breaker) × (get_elem? u.breakers t ≡ some b) × (check b now ≡ reject))
          (ap (λ (t : ℕ). t % length u.addrs) (omega arith) ∙ e)
          (Found-none f (cc) k (omega arith) (omega arith))

-- On a valid upstream, if every breaker rejects the request, `pick_addr` does not panic and finds no
-- backend.
pub pick_addr-All_rejected :
    (u : Upstream) (now : ℕ)
    → IsValid u
    → All (λ b. check b now ≡ reject) u.breakers
    → (u' : Upstream) × (pick_addr u now ≡ done (none, u'))
pick_addr-All_rejected u now v all =
    let (r, u', e, same, v') = pick_addr_total u now v in refused r u' e
  where
    refused :
        (r : Option (SocketAddr × ℕ)) (u' : Upstream)
        → pick_addr u now ≡ done (r, u')
        → (u' : Upstream) × (pick_addr u now ≡ done (none, u'))
    refused none u' e = (u', e)
    refused (some (a, i)) u' e =
        let (b, ea, eb, ok) = pick_addr_sound u u' now i a v e in
        cc (All-get_elem? (λ c. check c now ≡ reject) u.breakers i b all eb)
