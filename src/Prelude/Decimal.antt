-- ===== src/Prelude/Decimal.antt =====
-- A `u64` in decimal digits, as the standard library prints it.
use Prim.Native.Nat.{ℕ, zero, suc, ◌+◌, ◌-◌, ◌*◌, ◌/◌, ◌%◌, ◌<◌}
use mathlib.Core.Path.{◌≡◌, refl}
use mathlib.Core.Bool.{Bool, true, false, ◌&&◌}
use mathlib.Core.Option.{Option, none, some}
use mathlib.Core.List.{[], ◌∷◌}
use native.Mathlib.Omega.{arith}
use ferroxy.Prelude.Tests.{ltb, leb, if◌then◌else◌}
use ferroxy.Prelude.Lists.{all, is_empty}
use ferroxy.Prelude.Words.{u64_mod}
use ferroxy.Prelude.Text.{Text}

abbrev pub is_digit : ℕ → Bool
is_digit c = leb b'0' c && leb c b'9'

-- Digits from the last to the first; more rounds than `n` are enough.
unfoldable pub show_rounds : ℕ → ℕ → Text → Text
show_rounds zero n out = out
show_rounds (suc rounds) n out =
    let rest = show_rounds rounds (n / 10) ((b'0' + n % 10) ∷ out) in
    if ltb n 10 then (b'0' + n) ∷ out else rest

unfoldable pub show : ℕ → Text
unfolding show_rounds
show n = show_rounds (suc n) n []

-- The number that digits spell behind `acc`, if it fits a `u64`.
unfoldable pub read_digits : ℕ → Text → Option ℕ
read_digits acc [] = some acc
read_digits acc (c ∷ s) =
    let next = acc * 10 + (c - b'0') in
    let rest = read_digits next s in if is_digit c && ltb next u64_mod then rest else none

unfoldable pub read : Text → Option ℕ
unfolding read_digits
read t = if is_empty t then none else read_digits 0 t

read-show_rounds :
    (rounds n : ℕ) (out : Text)
    → n < rounds
    → n < u64_mod
    → read_digits 0 (show_rounds rounds n out) ≡ read_digits n out
unfolding show_rounds read_digits
read-show_rounds zero n out h k = elim h [ ]
read-show_rounds (suc rounds) n out h k =
    ground (arith, read-show_rounds rounds (n / 10) ((b'0' + n % 10) ∷ out))

show_rounds-ne_nil :
    (rounds n : ℕ) (out : Text) → n < rounds → is_empty (show_rounds rounds n out) ≡ false
unfolding show_rounds
show_rounds-ne_nil zero n out h = elim h [ ]
show_rounds-ne_nil (suc rounds) n out h =
    ground (arith, show_rounds-ne_nil rounds (n / 10) ((b'0' + n % 10) ∷ out))

-- Every `u64` is read back from its digits.
pub read-show : (n : ℕ) → n < u64_mod → read (show n) ≡ some n
unfolding read show
read-show n h = ground (arith, show_rounds-ne_nil (suc n) n [], read-show_rounds (suc n) n [])

all-show_rounds :
    (p : ℕ → Bool) (rounds n : ℕ) (out : Text)
    → ((c : ℕ) → is_digit c ≡ true → p c ≡ true)
    → all p out ≡ true
    → all p (show_rounds rounds n out) ≡ true
unfolding show_rounds
all-show_rounds p zero n out h a = a
all-show_rounds p (suc rounds) n out h a = ground (
  arith,
  h (b'0' + n),
  h (b'0' + n % 10),
  all-show_rounds p rounds (n / 10) ((b'0' + n % 10) ∷ out),
)

-- Digits are all that stands in them.
pub all-show :
    (p : ℕ → Bool) (n : ℕ) → ((c : ℕ) → is_digit c ≡ true → p c ≡ true) → all p (show n) ≡ true
unfolding show
all-show p n h = all-show_rounds p (suc n) n [] h refl
