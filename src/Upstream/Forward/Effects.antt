-- ===== src/Upstream/Forward/Effects.antt =====
-- What a run of `forward` leaves behind: the breaker that it updates, and the shape of the requests
-- that it sends.
use ferroxy.Prelude.{
  ℕ, zero, suc, All, sym, ◌≡◌, refl, ◌≢◌, ◌∙◌, ap, subst, Bool, false, List, [], Option, none, some,
  arith, is_empty, replicate, get_elem?, set, if◌then◌else◌,
}
use ferroxy.Prelude.Text.{Text, codes}
use ferroxy.Prelude.Checked.{done}
use ferroxy.Http.{Http, HttpLaws, UriParts}
use ferroxy.Upstream.Breaker.{Breaker, allow, check, on_success, on_failure}
use ferroxy.Upstream.Pool.{Upstream, SocketAddr, pick_addr, observe_breaker_outcome}
use ferroxy.Upstream.Pool.Select.{IsValid, pick_addr_total, pick_addr_sound}
use ferroxy.Upstream.Forward.{
  Parts, Request, Reply, Outgoing, ready, rewrite_uri, egress_parts, forward, Reported, http_11,
}
use ferroxy.Upstream.Forward.Outcomes.{
  Choice, direct, backend, Forwarded, turned_away, unread, tried,
}
use ferroxy.Upstream.Forward.Promises.{is_healthy, conclude-ending, Run-of}

-- A request as it goes to a configured backend.
pub record IsPlain (h : Http) (out : Outgoing h) : Type 0 where
  version_eq : out.0.version ≡ http_11
  no_host : h.get out.0.headers h.host_name ≡ none
  scheme_eq : (h.into_parts out.0.uri).scheme ≡ some (codes "http")

All-replicate : {A : Type 0} (P : A → Type 0) (a : A) (n : ℕ) → P a → All P (replicate n a)
All-replicate P a zero p = tt
All-replicate P a (suc n) p = (p, All-replicate P a n p)

-- The breaker array after an outcome for a breaker that is there.
observe_breakers :
    (u : Upstream) (i now : ℕ) (success : Bool) (b : Breaker)
    → get_elem? u.breakers i ≡ some b
    → (observe_breaker_outcome u (some i) success now).breakers
      ≡ set u.breakers i (if success then on_success b else on_failure b now)
unfolding observe_breaker_outcome
observe_breakers u i now success b e = ground arith

pick_addr_keeps :
    (u u' : Upstream) (now : ℕ) (r : Option (SocketAddr × ℕ))
    → IsValid u
    → pick_addr u now ≡ done (r, u')
    → u'.breakers ≡ u.breakers
pick_addr_keeps u u' now r v e =
    let (r', w, e', same, v') = pick_addr_total u now v in
    let eq : u' ≡ w = cc in ap (λ (t : Upstream). t.breakers) (eq ∙ same)

module _ (h : Http) (client : ℕ → Outgoing h → Reply h) (clock : ℕ → ℕ) (u : Upstream)
    (req : Request h) (read_timeout : ℕ) where
  Recorded : Reported h → Type 0
  Recorded r =
      (i : ℕ) × (b : Breaker) × (k : ℕ) × (out : Outgoing h) × (get_elem? u.breakers i ≡ some b)
      × (check b (clock 0) ≡ allow)
      × (r.2 ≡ replicate (suc k) out)
      × (r.1.breakers
          ≡ set u.breakers i
              (if is_healthy (client k out) then on_success b else on_failure b (clock (suc k))))

  records :
      {r : Reported h}
      → IsValid u
      → is_empty u.addrs ≡ false
      → Forwarded h client clock u req read_timeout r
      → r.2 ≢ []
      → Recorded r
  unfolding Recorded
  records v some_ (turned_away e u' c) q = absurd (q refl)
  records v some_ (unread parts idx u' c n) q = absurd (q refl)
  records v some_ (tried parts _ u' bytes k (direct e) s hi fin before) q = cc
  records v some_ (tried _ _ _ bytes k (backend a i authority uri u' p g w) s hi fin before) q =
      let out : Outgoing h = (record (egress_parts h req.parts) { uri = uri }, bytes) in
      let (b, ea, eb, allowed) = pick_addr_sound u u' (clock 0) i a v p in
      let same = pick_addr_keeps u u' (clock 0) (some (a, i)) v p in
      let e =
        conclude-ending h u' (some i) read_timeout (clock (suc k)) (client k out)
          (replicate (suc k) out) in
      (
        i,
        b,
        k,
        out,
        eb,
        allowed,
        ap (λ (t : Reported h). t.2) e,
        ap (λ (t : Reported h). t.1.breakers) e
            ∙ observe_breakers u' i (clock (suc k)) (is_healthy (client k out)) b (rw same eb)
            ∙ ap
                (λ (t : List Breaker). set t i (
                  if is_healthy (client k out) then on_success b else on_failure b (clock (suc k))))
                same,
      )

  -- On a valid upstream with backends, a request that was sent updates one breaker and no other:
  -- that of a backend whose breaker allowed the request. The reply to the last attempt decides
  -- between success and failure.
  pub forward_records :
      (r : Reported h)
      → IsValid u
      → is_empty u.addrs ≡ false
      → forward h client clock u req read_timeout ≡ done r
      → r.2 ≢ []
      → (i : ℕ) × (b : Breaker) × (k : ℕ) × (out : Outgoing h) × (get_elem? u.breakers i ≡ some b)
        × (check b (clock 0) ≡ allow)
        × (r.2 ≡ replicate (suc k) out)
        × (r.1.breakers
            ≡ set u.breakers i
                (if is_healthy (client k out) then on_success b else on_failure b (clock (suc k))))
  unfolding Recorded
  forward_records r v some_ e q = records v some_ (Run-of h client clock u req read_timeout v r e) q

  plain :
      {parts : Parts h} {idx : Option ℕ} {u' : Upstream} (bytes : Text)
      → HttpLaws h
      → is_empty u.addrs ≡ false
      → Choice h u (egress_parts h req.parts) (clock 0) (ready parts idx u')
      → IsPlain h (parts, bytes)
  unfolding egress_parts rewrite_uri
  plain bytes laws some_ (direct e) = cc
  plain bytes laws some_ (backend a i authority uri u' p g w) = record {
    version_eq = refl;
    no_host = laws.get-remove req.parts.headers h.host_name;
    scheme_eq = ap (λ (t : UriParts). t.scheme) (laws.into_parts-from_parts _ uri w);
  }

  -- On a valid upstream with backends, every request that `forward` sends is HTTP/1.1 over plain
  -- `http` and has no `host` header, whatever the version and the scheme of the request that came in.
  pub forward-IsPlain :
      (r : Reported h)
      → IsValid u
      → HttpLaws h
      → is_empty u.addrs ≡ false
      → forward h client clock u req read_timeout ≡ done r
      → All (IsPlain h) r.2
  forward-IsPlain r v laws some_ e = go (Run-of h client clock u req read_timeout v r e)
    where
      go : {r : Reported h} → Forwarded h client clock u req read_timeout r → All (IsPlain h) r.2
      go (turned_away e u' c) = tt
      go (unread parts idx u' c m) = tt
      go (tried parts idx u' bytes k c s hi fin before) =
          let e =
            conclude-ending h u' idx read_timeout (clock (suc k)) (client k (parts, bytes))
              (replicate (suc k) (parts, bytes)) in
          subst (λ (t : Reported h). All (IsPlain h) t.2) (sym e)
            (All-replicate (IsPlain h) (parts, bytes) (suc k) (plain bytes laws some_ c))
