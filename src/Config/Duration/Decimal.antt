-- ===== src/Config/Duration/Decimal.antt =====
-- The value of a well-formed duration, on digits of any number and every unit.
use ferroxy.Prelude.{
  ℕ, ◌+◌, ◌-◌, ◌*◌, ◌≤◌, ◌<◌, ◌≡◌, refl, sym, true, false, ◌&&◌, [], ◌∷◌, ◌++◌, none, some, All,
  arith, ltb, is_empty, Bool-cases, inl, inr, if◌then◌else◌, u64_mod,
}
use mathlib.Core.List.{reverse, reverse-append, reverse-reverse}
use ferroxy.Prelude.Text.{Text, text_eq, codes}
use ferroxy.Prelude.Result.{ok, err, ok_or, ◌>>=◌}
use ferroxy.Config.Duration.{
  overflow, is_digit, is_space, trim, trim_start, split_digits, parse_u64, with_unit, of_seconds,
  parse,
}

-- The number that decimal digits denote, after the digits that make `acc`.
unfoldable pub value : ℕ → Text → ℕ
value acc [] = acc
value acc (c ∷ s) = value (acc * 10 + (c - b'0')) s

le-value : (acc : ℕ) (s : Text) → acc ≤ value acc s
unfolding value
le-value acc [] = omega arith
le-value acc (c ∷ s) = let e = le-value (acc * 10 + (c - b'0')) s in omega arith

-- Reading digits into a `u64` fails exactly if their number does not fit, although the test is made
-- at every digit.
parse_u64-value :
    (acc : ℕ) (s : Text)
    → acc < u64_mod
    → parse_u64 acc s ≡ (if ltb (value acc s) u64_mod then some (value acc s) else none)
unfolding parse_u64 value
parse_u64-value acc [] h = ground arith
parse_u64-value acc (c ∷ s) h =
    let next = acc * 10 + (c - b'0') in ground (arith, parse_u64-value next s, le-value next s)

pub data TimeUnit : Type 0 where
  millis secs mins hours : TimeUnit

abbrev pub unit_text : TimeUnit → Text
unit_text millis = codes "ms"
unit_text secs = codes "s"
unit_text mins = codes "m"
unit_text hours = codes "h"

-- The seconds that the unit counts for, where the parser multiplies.
abbrev pub scale : TimeUnit → ℕ
scale millis = 1
scale secs = 1
scale mins = 60
scale hours = 3600

-- A unit in nanoseconds.
abbrev pub nanos : TimeUnit → ℕ
nanos millis = 1_000_000
nanos secs = 1_000_000_000
nanos mins = 60_000_000_000
nanos hours = 3_600_000_000_000

with_unit-value :
    (n : ℕ) (t : TimeUnit)
    → n < u64_mod
    → with_unit n (unit_text t)
      ≡ (if ltb (n * scale t) u64_mod then ok (n * nanos t) else err overflow)
unfolding with_unit of_seconds text_eq
with_unit-value n millis h = ground arith
with_unit-value n secs h = ground arith
with_unit-value n mins h = ground arith
with_unit-value n hours h = ground arith

trim_start-digit : (c : ℕ) (s : Text) → is_digit c ≡ true → trim_start (c ∷ s) ≡ c ∷ s
unfolding trim_start
trim_start-digit c s h = let e : is_space c ≡ false = ground arith in rw e refl

-- Nothing is trimmed behind a unit.
trim_start-unit :
    (t : TimeUnit) (s : Text) → trim_start (reverse (unit_text t) ++ s) ≡ reverse (unit_text t) ++ s
unfolding trim_start
trim_start-unit millis s = refl
trim_start-unit secs s = refl
trim_start-unit mins s = refl
trim_start-unit hours s = refl

trim-unit : (t : TimeUnit) → trim (unit_text t) ≡ unit_text t
unfolding trim trim_start
trim-unit millis = refl
trim-unit secs = refl
trim-unit mins = refl
trim-unit hours = refl

trim-written :
    (c : ℕ) (s : Text) (t : TimeUnit)
    → is_digit c ≡ true
    → trim (c ∷ s ++ unit_text t) ≡ c ∷ s ++ unit_text t
unfolding trim
trim-written c s t h =
    rw
      (
        trim_start-digit c (s ++ unit_text t) h,
        reverse-append (c ∷ s) (unit_text t),
        trim_start-unit t (reverse (c ∷ s)),
        sym (reverse-append (c ∷ s) (unit_text t)),
      )
      (reverse-reverse (c ∷ s ++ unit_text t))

split_digits-unit : (t : TimeUnit) → split_digits (unit_text t) ≡ ([], unit_text t)
unfolding split_digits
split_digits-unit millis = refl
split_digits-unit secs = refl
split_digits-unit mins = refl
split_digits-unit hours = refl

split_digits-written :
    (s : Text) (t : TimeUnit)
    → All (λ c. is_digit c ≡ true) s
    → split_digits (s ++ unit_text t) ≡ (s, unit_text t)
unfolding split_digits
split_digits-written [] t a = split_digits-unit t
split_digits-written (c ∷ s) t a = rw (split_digits-written s t a.1, a.0) refl

unit_not_empty : (t : TimeUnit) → is_empty (unit_text t) ≡ false
unit_not_empty millis = refl
unit_not_empty secs = refl
unit_not_empty mins = refl
unit_not_empty hours = refl

read :
    (n : ℕ) (t : TimeUnit)
    → (do m ← ok_or (if ltb n u64_mod then some n else none) overflow; with_unit m (unit_text t))
      ≡ (if ltb n u64_mod && ltb (n * scale t) u64_mod then ok (n * nanos t) else err overflow)
read n t = elim (Bool-cases (ltb n u64_mod)) [
  | inl e ↦ rw e (with_unit-value n t (ground arith))
  | inr e ↦ rw e refl
]

-- At least one digit directly followed by a unit parses to their product in nanoseconds if the
-- number fits a `u64` and, for minutes and hours, its seconds do too; otherwise the result is an
-- overflow error.
pub parse-written :
    (c : ℕ) (s : Text) (t : TimeUnit)
    → All (λ d. is_digit d ≡ true) (c ∷ s)
    → let n = value 0 (c ∷ s) in
      parse (c ∷ s ++ unit_text t)
      ≡ (if ltb n u64_mod && ltb (n * scale t) u64_mod then ok (n * nanos t) else err overflow)
unfolding parse
parse-written c s t a =
    rw
      (
        trim-written c s t a.0,
        split_digits-written (c ∷ s) t a,
        unit_not_empty t,
        parse_u64-value 0 (c ∷ s) (omega arith),
        trim-unit t,
      )
      (read (value 0 (c ∷ s)) t)
