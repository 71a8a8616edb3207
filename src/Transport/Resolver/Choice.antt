-- ===== src/Transport/Resolver/Choice.antt =====
-- Which certificate a server name gets, described on the plain list of the loaded ones, and that the
-- tables which are filled one by one answer the same.
use ferroxy.Prelude.{
  ◌≡◌, refl, sym, ◌∙◌, ap, Bool, true, false, List, [], ◌∷◌, ◌++◌, Option, none, some, is_empty,
  if◌then◌else◌, Option-cases, Bool-cases, inl, inr,
}
use ferroxy.Prelude.Text.{Text, text_eq, to_ascii_lowercase}
use ferroxy.Prelude.Assoc.{lookup, lookup-insert}
use ferroxy.Transport.Resolver.{
  ServerTls, CertifiedKey, Building, keep_first, add_key, find_wildcard, wildcard_of, after_dot,
}

abbrev pub first_of {ℓ} : {A : Type ℓ} → Option A → Option A → Option A
first_of none o = o
first_of (some a) o = some a

module _ (l : ServerTls) where
  -- The certificates in the order of the configuration, each with its pattern.
  abbrev pub Keys : Type 0
  Keys = List (Text × CertifiedKey l)

  abbrev is_exact : Text → Text → Bool
  is_exact name sni = elim (wildcard_of sni) [
    | some suffix ↦ false
    | none ↦ text_eq (to_ascii_lowercase sni) name
  ]

  abbrev is_wild : Text → Text → Bool
  is_wild suffix sni = elim (wildcard_of sni) [
    | some s ↦ text_eq (to_ascii_lowercase s) suffix
    | none ↦ false
  ]

  -- The last certificate for exactly this name.
  unfoldable pub exact_match : Text → Keys → Option (CertifiedKey l)
  exact_match name [] = none
  exact_match name ((sni, ck) ∷ ks) =
      let later = exact_match name ks in
      first_of later (if is_exact name sni then some ck else none)

  -- The first certificate for `*.` and this suffix.
  unfoldable pub wild_match : Text → Keys → Option (CertifiedKey l)
  wild_match suffix [] = none
  wild_match suffix ((sni, ck) ∷ ks) =
      let later = wild_match suffix ks in if is_wild suffix sni then some ck else later

  -- The order of preference: exact, one label below a wildcard, the first certificate.
  unfoldable pub preferred : CertifiedKey l → Keys → Text → CertifiedKey l
  preferred first ks name = elim (exact_match name ks) [
    | some ck ↦ ck
    | none ↦ elim (after_dot name) [
      | none ↦ first
      | some suffix ↦ elim (wild_match suffix ks) [ none ↦ first | some ck ↦ ck ]
    ]
  ]

  unfoldable pub choice : CertifiedKey l → Keys → Option Text → CertifiedKey l
  choice first ks none = first
  choice first ks (some sni) =
      if is_empty sni then first else preferred first ks (to_ascii_lowercase sni)

  unfoldable pub add_keys : Building l → Keys → Building l
  add_keys t [] = t
  add_keys t ((sni, ck) ∷ ks) = add_keys (add_key l t sni ck) ks

  first_of-if :
      (o p : Option (CertifiedKey l)) (b : Bool) (ck : CertifiedKey l)
      → first_of o (if b then some ck else p)
        ≡ first_of (first_of o (if b then some ck else none)) p
  first_of-if none p true ck = refl
  first_of-if none p false ck = refl
  first_of-if (some a) p b ck = refl

  lookup-add_key :
      (t : Building l) (sni : Text) (ck : CertifiedKey l) (name : Text)
      → lookup name (add_key l t sni ck).exact
        ≡ (if is_exact name sni then some ck else lookup name t.exact)
  unfolding add_key lookup wildcard_of
  lookup-add_key t sni ck name = elim (Option-cases (wildcard_of sni)) [
    | inl e ↦ rw e (lookup-insert (to_ascii_lowercase sni) name ck t.exact)
    | inr (s, e) ↦ rw e refl
  ]

  pub lookup-add_keys :
      (t : Building l) (ks : Keys) (name : Text)
      → lookup name (add_keys t ks).exact ≡ first_of (exact_match name ks) (lookup name t.exact)
  unfolding add_keys exact_match
  lookup-add_keys t [] name = refl
  lookup-add_keys t ((sni, ck) ∷ ks) name =
      lookup-add_keys (add_key l t sni ck) ks name
      ∙ ap (first_of (exact_match name ks)) (lookup-add_key t sni ck name)
      ∙ first_of-if (exact_match name ks) (lookup name t.exact) (is_exact name sni) ck

  find_wildcard-append :
      (suffix : Text) (w v : List (Text × CertifiedKey l))
      → find_wildcard l suffix (w ++ v)
        ≡ first_of (find_wildcard l suffix w) (find_wildcard l suffix v)
  unfolding find_wildcard
  find_wildcard-append suffix [] v = refl
  find_wildcard-append suffix ((pat, ck) ∷ w) v = elim (Bool-cases (text_eq pat suffix)) [
    | inl e ↦ rw e refl
    | inr e ↦ rw e (find_wildcard-append suffix w v)
  ]

  pub first_of-none : (o : Option (CertifiedKey l)) → first_of o none ≡ o
  first_of-none none = refl
  first_of-none (some a) = refl

  first_of_assoc :
      (o p q : Option (CertifiedKey l)) → first_of (first_of o p) q ≡ first_of o (first_of p q)
  first_of_assoc none p q = refl
  first_of_assoc (some a) p q = refl

  if-first_of :
      (b : Bool) (ck : CertifiedKey l) (o : Option (CertifiedKey l))
      → first_of (if b then some ck else none) o ≡ (if b then some ck else o)
  if-first_of true ck o = refl
  if-first_of false ck o = refl

  find_wildcard-add_key :
      (t : Building l) (sni : Text) (ck : CertifiedKey l) (suffix : Text)
      → find_wildcard l suffix (add_key l t sni ck).wildcard
        ≡ first_of
            (find_wildcard l suffix t.wildcard)
            (if is_wild suffix sni then some ck else none)
  unfolding add_key find_wildcard wildcard_of
  find_wildcard-add_key t sni ck suffix = elim (Option-cases (wildcard_of sni)) [
    | inl e ↦ rw (e, first_of-none (find_wildcard l suffix t.wildcard)) refl
    | inr (s, e) ↦ rw e (find_wildcard-append suffix t.wildcard ((to_ascii_lowercase s, ck) ∷ []))
  ]

  pub find_wildcard-add_keys :
      (t : Building l) (ks : Keys) (suffix : Text)
      → find_wildcard l suffix (add_keys t ks).wildcard
        ≡ first_of (find_wildcard l suffix t.wildcard) (wild_match suffix ks)
  unfolding add_keys wild_match
  find_wildcard-add_keys t [] suffix = sym (first_of-none (find_wildcard l suffix t.wildcard))
  find_wildcard-add_keys t ((sni, ck) ∷ ks) suffix =
      find_wildcard-add_keys (add_key l t sni ck) ks suffix
      ∙ ap (λ o. first_of o (wild_match suffix ks)) (find_wildcard-add_key t sni ck suffix)
      ∙ first_of_assoc (find_wildcard l suffix t.wildcard)
          (if is_wild suffix sni then some ck else none) (wild_match suffix ks)
      ∙ ap (first_of (find_wildcard l suffix t.wildcard))
          (if-first_of (is_wild suffix sni) ck (wild_match suffix ks))

  keep_first-first_of :
      (o : Option (CertifiedKey l)) (ck : CertifiedKey l) → keep_first l o ck ≡ first_of o (some ck)
  keep_first-first_of none ck = refl
  keep_first-first_of (some a) ck = refl

  pub fallback-add_key :
      (t : Building l) (sni : Text) (ck first : CertifiedKey l)
      → first_of t.fallback (some ck) ≡ some first
      → (add_key l t sni ck).fallback ≡ some first
  unfolding add_key wildcard_of
  fallback-add_key t sni ck first e = elim (Option-cases (wildcard_of sni)) [
    | inl w ↦ rw w (keep_first-first_of t.fallback ck ∙ e)
    | inr (s, w) ↦ rw w (keep_first-first_of t.fallback ck ∙ e)
  ]

  pub fallback-add_keys :
      (t : Building l) (ks : Keys) (first : CertifiedKey l)
      → t.fallback ≡ some first
      → (add_keys t ks).fallback ≡ some first
  unfolding add_keys
  fallback-add_keys t [] first e = e
  fallback-add_keys t ((sni, ck) ∷ ks) first e =
      fallback-add_keys (add_key l t sni ck) ks first (fallback-add_key t sni ck first (rw e refl))
