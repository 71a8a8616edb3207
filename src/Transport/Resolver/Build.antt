-- ===== src/Transport/Resolver/Build.antt =====
-- Loading the table: which error or which certificates a configuration leads to, and reloading.
use ferroxy.Prelude.{
  ◌≡◌, refl, sym, subst, ◌∙◌, ap, ◌⊎◌, inl, inr, ◌≢◌, List, [], ◌∷◌, Option, none, some,
  Option-cases,
}
use ferroxy.Prelude.Text.{Text, to_ascii_lowercase}
use ferroxy.Prelude.Assoc.{lookup}
use ferroxy.Prelude.Checked.{Checked, done}
use ferroxy.Prelude.Result.{Result, ok, err, ◌>>=◌, Result-cases}
use ferroxy.Config.Schema.{CertSpec}
use ferroxy.Transport.Resolver.{
  ServerTls, TlsError, no_certs, CertifiedKey, CertTable, Building, nothing_built, load_spec,
  add_key, add_specs, finish, build_table, find_wildcard, lookup_sni, resolve, reload, after_dot,
}
use ferroxy.Transport.Resolver.Choice.{
  first_of-none, Keys, exact_match, wild_match, preferred, choice, add_keys, lookup-add_keys,
  find_wildcard-add_keys, fallback-add_key, fallback-add_keys,
}

module _ (l : ServerTls) where
  -- The certificates of all entries in order, or the first error.
  unfoldable pub load_all : List CertSpec → Result TlsError (Keys l)
  load_all [] = ok []
  load_all (spec ∷ specs) = do ck ← load_spec l spec; ks ← load_all specs; ok ((spec.sni, ck) ∷ ks)

  abbrev then_add : Building l → Result TlsError (Keys l) → Result TlsError (Building l)
  then_add t (err e) = err e
  then_add t (ok ks) = ok (add_keys l t ks)

  then_add-bind :
      (t : Building l) (spec : CertSpec) (ck : CertifiedKey l) (r : Result TlsError (Keys l))
      → then_add (add_key l t spec.sni ck) r ≡ then_add t (do ks ← r; ok ((spec.sni, ck) ∷ ks))
  unfolding add_keys
  then_add-bind t spec ck (err e) = refl
  then_add-bind t spec ck (ok ks) = refl

  add_specs-load_all :
      (specs : List CertSpec) (t : Building l) → add_specs l specs t ≡ then_add t (load_all specs)
  unfolding add_specs load_all add_keys
  add_specs-load_all [] t = refl
  add_specs-load_all (spec ∷ specs) t = elim (Result-cases (load_spec l spec)) [
    | inl (e, q) ↦ rw q refl
    | inr (ck, q) ↦ rw q (
        add_specs-load_all specs (add_key l t spec.sni ck)
        ∙ then_add-bind t spec ck (load_all specs))
  ]

  abbrev table_of : Keys l → CertifiedKey l → CertTable l
  table_of ks first =
      let t = add_keys l (nothing_built l) ks in
      record { exact = t.exact; wildcard = t.wildcard; fallback = first }

  exact_only :
      (ks : Keys l) (name : Text)
      → lookup name (add_keys l (nothing_built l) ks).exact ≡ exact_match l name ks
  unfolding lookup
  exact_only ks name =
      lookup-add_keys l (nothing_built l) ks name ∙ first_of-none l (exact_match l name ks)

  lookup_sni-by :
      (table : CertTable l) (ks : Keys l) (sni : Text)
      → lookup (to_ascii_lowercase sni) table.exact ≡ exact_match l (to_ascii_lowercase sni) ks
      → ((suffix : Text) → find_wildcard l suffix table.wildcard ≡ wild_match l suffix ks)
      → lookup_sni l table sni ≡ preferred l table.fallback ks (to_ascii_lowercase sni)
  unfolding lookup_sni preferred
  lookup_sni-by table ks sni x f =
      let name = to_ascii_lowercase sni in
      elim (Option-cases (exact_match l name ks)) [
        | inr (ck, m) ↦ rw (x, m, lookup_sni, preferred) refl
        | inl m ↦
            rw (x, m, lookup_sni, preferred)
              (elim (Option-cases (after_dot name)) [
                | inl a ↦ rw a refl
                | inr (suffix, a) ↦
                    rw (a, f suffix)
                      (elim (Option-cases (wild_match l suffix ks)) [
                        | inl w ↦ rw w refl
                        | inr (ck, w) ↦ rw w refl
                      ])
              ])
      ]

  lookup_sni-preferred :
      (ks : Keys l) (first : CertifiedKey l) (sni : Text)
      → lookup_sni l (table_of ks first) sni ≡ preferred l first ks (to_ascii_lowercase sni)
  unfolding find_wildcard
  lookup_sni-preferred ks first sni =
      lookup_sni-by (table_of ks first) ks sni (exact_only ks (to_ascii_lowercase sni))
        (find_wildcard-add_keys l (nothing_built l) ks)

  resolve-choice :
      (ks : Keys l) (first : CertifiedKey l) (name : Option Text)
      → resolve l (table_of ks first) name ≡ some (choice l first ks name)
  unfolding resolve choice
  resolve-choice ks first none = refl
  resolve-choice ks first (some []) = refl
  resolve-choice ks first (some (c ∷ sni)) = ap some (lookup_sni-preferred ks first (c ∷ sni))

  -- How loading a configuration ends: without entries or with the first error of an entry, or with a
  -- table that gives each server name its choice among all entries.
  pub data Loaded (specs : List CertSpec) : Checked (Result TlsError (CertTable l)) → Type 0 where
    no_entries : specs ≡ [] → Loaded specs (done (err no_certs))
    failed : (e : TlsError) → load_all specs ≡ err e → Loaded specs (done (err e))
    loaded :
        (sni : Text) (first : CertifiedKey l) (ks : Keys l) (table : CertTable l)
        → load_all specs ≡ ok ((sni, first) ∷ ks)
        → ((name : Option Text)
            → resolve l table name ≡ some (choice l first ((sni, first) ∷ ks) name))
        → Loaded specs (done (ok table))

  load_all-nonempty : (spec : CertSpec) (specs : List CertSpec) → load_all (spec ∷ specs) ≢ ok []
  unfolding load_all
  load_all-nonempty spec specs = elim (Result-cases (load_spec l spec)) [
    | inl (e, q) ↦ rw q λ x. cc
    | inr (ck, q) ↦ rw q (elim (Result-cases (load_all specs)) [
      | inl (e, r) ↦ rw r λ x. cc
      | inr (ks, r) ↦ rw r λ x. cc
    ])
  ]

  finish-Loaded :
      (spec : CertSpec) (specs : List CertSpec) (r : Result TlsError (Keys l))
      → load_all (spec ∷ specs) ≡ r
      → Loaded (spec ∷ specs) (finish l (then_add (nothing_built l) r))
  unfolding add_keys
  finish-Loaded spec specs (err e) q = failed e q
  finish-Loaded spec specs (ok []) q = absurd (load_all-nonempty spec specs q)
  finish-Loaded spec specs (ok ((sni, first) ∷ ks)) q =
      rw
        (fallback-add_keys l (add_key l (nothing_built l) sni first) ks first
          (fallback-add_key l (nothing_built l) sni first first refl))
        (loaded sni first ks _ q (resolve-choice ((sni, first) ∷ ks) first))

  -- Loading a configuration ends without a panic in one of these ways.
  pub build_table-Loaded : (specs : List CertSpec) → Loaded specs (build_table l specs)
  unfolding build_table
  build_table-Loaded [] = no_entries refl
  build_table-Loaded (spec ∷ specs) =
      subst (λ r. Loaded (spec ∷ specs) (finish l r))
        (sym (add_specs-load_all (spec ∷ specs) (nothing_built l)))
        (finish-Loaded spec specs (load_all (spec ∷ specs)) refl)

  -- A reload that fails leaves the table as it was, and one that succeeds replaces it by the one that
  -- loading the entries gives; it does not panic.
  pub reload_lem :
      (specs : List CertSpec) (table : CertTable l)
      → ((e : TlsError) × (build_table l specs ≡ done (err e))
          × (reload l specs table ≡ done (err e, table)))
        ⊎ ((fresh : CertTable l) × (build_table l specs ≡ done (ok fresh))
            × (reload l specs table ≡ done (ok tt, fresh)))
  unfolding reload
  reload_lem specs table = go (build_table l specs) (build_table-Loaded specs) refl
    where
      go :
          (r : Checked (Result TlsError (CertTable l)))
          → Loaded specs r
          → build_table l specs ≡ r
          → ((e : TlsError) × (build_table l specs ≡ done (err e))
              × (reload l specs table ≡ done (err e, table)))
            ⊎ ((fresh : CertTable l) × (build_table l specs ≡ done (ok fresh))
                × (reload l specs table ≡ done (ok tt, fresh)))
      go _ (no_entries x) q = inl (no_certs, q, rw (q, reload) refl)
      go _ (failed e x) q = inl (e, q, rw (q, reload) refl)
      go _ (loaded sni first ks fresh x f) q = inr (fresh, q, rw (q, reload) refl)
