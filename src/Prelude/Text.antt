-- ===== src/Prelude/Text.antt =====
-- Strings as their UTF-8 bytes: the tests that the program makes on hosts, paths and names.
use Prim.Native.Nat.{ℕ, ◌+◌}
use Prim.Native.Char.{code}
use Prim.Native.String.{String}
use mathlib.Core.Path.{◌≡◌, refl}
use mathlib.Core.Logic.{◌↔◌}
use mathlib.Core.Bool.{Bool, true, false, not, ◌&&◌}
use mathlib.Core.List.{List, [], ◌∷◌, map}
use native.Mathlib.Omega.{arith}
use ferroxy.Prelude.Tests.{leb, ◌==◌, if◌then◌else◌}
use ferroxy.Prelude.Lists.{length, all}

abbrev pub Text : Type 0
Text = List ℕ

-- The bytes of an ASCII literal.
abbrev pub codes : String → Text
codes String.[] = []
codes (String.◌∷◌ c s) = code c ∷ codes s

unfoldable pub text_eq : Text → Text → Bool
text_eq [] [] = true
text_eq (a ∷ s) (b ∷ t) = a == b && text_eq s t
text_eq _ _ = false

-- `path.starts_with(prefix)`
unfoldable pub starts_with : Text → Text → Bool
starts_with s [] = true
starts_with [] (b ∷ t) = false
starts_with (a ∷ s) (b ∷ t) = a == b && starts_with s t

-- `u8::is_ascii_uppercase`
abbrev pub is_ascii_uppercase : ℕ → Bool
is_ascii_uppercase c = leb b'A' c && leb c b'Z'

abbrev pub lower_byte : ℕ → ℕ
lower_byte c = if is_ascii_uppercase c then c + 32 else c

-- `str::to_ascii_lowercase`
unfoldable pub to_ascii_lowercase : Text → Text
to_ascii_lowercase s = map lower_byte s

pub text_eq_iff : (s t : Text) → (text_eq s t ≡ true) ↔ (s ≡ t)
unfolding text_eq
text_eq_iff [] [] = (λ h. refl, λ h. refl)
text_eq_iff [] (b ∷ t) = (λ h. cc, λ h. cc)
text_eq_iff (a ∷ s) [] = (λ h. cc, λ h. cc)
text_eq_iff (a ∷ s) (b ∷ t) = ground (arith, text_eq_iff s t)

pub text_eq_self : (s : Text) → text_eq s s ≡ true
text_eq_self s = (text_eq_iff s s).1 refl

-- Two prefixes of one text that are equally long are equal.
pub starts_with_unique :
    (s p q : Text) → starts_with s p ≡ true → starts_with s q ≡ true → length p ≡ length q → p ≡ q
unfolding starts_with
starts_with_unique s [] [] hp hq e = refl
starts_with_unique s [] (b ∷ q) hp hq e = absurd (omega arith)
starts_with_unique s (a ∷ p) [] hp hq e = absurd (omega arith)
starts_with_unique [] (a ∷ p) (b ∷ q) hp hq e = cc
starts_with_unique (c ∷ s) (a ∷ p) (b ∷ q) hp hq e = ground (arith, starts_with_unique s p q)

lower_byte-of_lower : (c : ℕ) → is_ascii_uppercase c ≡ false → lower_byte c ≡ c
lower_byte-of_lower c h = ground arith

-- A text with no upper-case letter is its own lower-case form.
pub to_ascii_lowercase-of_lower :
    (s : Text) → all (λ c. not (is_ascii_uppercase c)) s ≡ true → to_ascii_lowercase s ≡ s
unfolding to_ascii_lowercase
to_ascii_lowercase-of_lower [] h = refl
to_ascii_lowercase-of_lower (c ∷ s) h = ground (arith, to_ascii_lowercase-of_lower s)

pub to_ascii_lowercase_idem :
    (s : Text) → to_ascii_lowercase (to_ascii_lowercase s) ≡ to_ascii_lowercase s
unfolding to_ascii_lowercase
to_ascii_lowercase_idem [] = refl
to_ascii_lowercase_idem (c ∷ s) = ground (arith, to_ascii_lowercase_idem s)
