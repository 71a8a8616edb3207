-- ===== src/Transport/Resolver/Tests.antt =====
-- A table of three certificates, and a reload that fails.
use ferroxy.Prelude.{◌≡◌, refl, List, [], ◌∷◌, none, some, if◌then◌else◌}
use ferroxy.Prelude.Text.{Text, codes, text_eq, to_ascii_lowercase}
use ferroxy.Prelude.Assoc.{lookup, insert}
use ferroxy.Prelude.Checked.{done}
use ferroxy.Prelude.Result.{ok}
use ferroxy.Config.Schema.{CertSpec}
use ferroxy.Transport.Resolver.{
  ServerTls, key, CertifiedKey, CertTable, resolve, lookup_sni, find_wildcard, after_dot,
  wildcard_of, strip_prefix, build_table, add_specs, add_key, load_spec, load_certs, read_certs,
  load_key, load_ocsp,
}
use ferroxy.Transport.Resolver.Build.{Loaded, build_table-Loaded}

-- Each file holds its own name as a certificate and a key, and one file cannot be read.
abbrev pub files : ServerTls
files = record {
  Bytes = Text;
  Cert = Text;
  Key = Text;
  SigningKey = Text;
  read = λ path. if text_eq path (codes "gone") then none else some path;
  pem_certs = λ bytes. some bytes ∷ [];
  pem_key = key;
  any_supported_type = some;
}

abbrev spec : Text → Text → CertSpec
spec sni file = record { sni = sni; cert = file; key = file; ocsp_response = none }

abbrev pub three : List CertSpec
three =
    spec (codes "*.Example.com") (codes "wild")
    ∷ spec (codes "a.example.com") (codes "first")
    ∷ spec (codes "A.example.com") (codes "second")
    ∷ []

abbrev ck : Text → CertifiedKey files
ck file = record { cert = file ∷ []; key = file; ocsp = none }

abbrev pub table : CertTable files
table = record {
  exact = (codes "a.example.com", ck (codes "second")) ∷ [];
  wildcard = (codes "example.com", ck (codes "wild")) ∷ [];
  fallback = ck (codes "wild");
}

built : build_table files three ≡ done (ok table)
unfolding build_table add_specs add_key load_spec load_certs read_certs load_key load_ocsp
    wildcard_of strip_prefix text_eq to_ascii_lowercase insert
built = refl

last_exact_wins : resolve files table (some (codes "a.EXAMPLE.com")) ≡ some (ck (codes "second"))
unfolding resolve lookup_sni lookup text_eq to_ascii_lowercase
last_exact_wins = refl

one_label : resolve files table (some (codes "b.example.com")) ≡ some (ck (codes "wild"))
unfolding resolve lookup_sni lookup text_eq to_ascii_lowercase after_dot find_wildcard
one_label = refl

build_table-Loaded_example : Loaded files three (build_table files three)
build_table-Loaded_example = build_table-Loaded files three
