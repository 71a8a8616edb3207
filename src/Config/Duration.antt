-- ===== src/Config/Duration.antt =====
-- crates/conduit-config/src/duration.rs: `parse`. A string is its bytes; the white space of `str::trim` is that
-- of ASCII, so a string with other white space at its ends is outside the model. A duration counts
-- nanoseconds.
pub mod Decimal
mod Tests
use ferroxy.Prelude.{
  ℕ, zero, suc, ◌+◌, ◌-◌, ◌*◌, Bool, true, false, ◌&&◌, ◌||◌, List, [], ◌∷◌, ◌++◌, Option, none,
  some, is_empty, ltb, leb, ◌==◌, if◌then◌else◌, u64_mod, from_millis, from_secs,
}
use mathlib.Core.List.{reverse}
use ferroxy.Prelude.Text.{Text, text_eq, codes}
use ferroxy.Prelude.Result.{Result, ok, err, ◌>>=◌, ◌>>◌, fail_if, ok_or}

pub data ParseError : Type 0 where
  empty missing_unit missing_number overflow : ParseError
  unknown_unit : Text → ParseError

abbrev pub is_digit : ℕ → Bool
is_digit c = leb b'0' c && leb c b'9'

-- Tab, line feed, vertical tab, form feed, carriage return, space.
abbrev pub is_space : ℕ → Bool
is_space c = leb 9 c && leb c 13 || c == 32

unfoldable pub trim_start : Text → Text
trim_start [] = []
trim_start (c ∷ s) = if is_space c then trim_start s else c ∷ s

unfoldable pub trim : Text → Text
unfolding trim_start
trim s = reverse (trim_start (reverse (trim_start s)))

-- `s.find(|c| !c.is_ascii_digit())` followed by `s.split_at(split)`: the digits and the rest.
unfoldable pub split_digits : Text → Text × Text
split_digits [] = ([], [])
split_digits (c ∷ s) =
    let (num, unit) = split_digits s in if is_digit c then (c ∷ num, unit) else ([], c ∷ s)

-- `num_str.parse::<u64>()` on digits alone: it fails exactly if a step exceeds a `u64`.
unfoldable pub parse_u64 : ℕ → Text → Option ℕ
parse_u64 acc [] = some acc
parse_u64 acc (c ∷ s) =
    let next = acc * 10 + (c - b'0') in
    let rest = parse_u64 next s in if ltb next u64_mod then rest else none

-- `n.checked_mul(secs_mul)`
abbrev checked_mul : ℕ → ℕ → Option ℕ
checked_mul n m = if ltb (n * m) u64_mod then some (n * m) else none

unfoldable pub of_seconds : ℕ → ℕ → Result ParseError ℕ
of_seconds n secs_mul = do secs ← ok_or (checked_mul n secs_mul) overflow; ok (from_secs secs)

unfoldable pub with_unit : ℕ → Text → Result ParseError ℕ
unfolding of_seconds
with_unit n unit =
    if text_eq unit (codes "ms")
    then ok (from_millis n)
    else if text_eq unit (codes "s")
    then of_seconds n 1
    else if text_eq unit (codes "m")
    then of_seconds n 60
    else if text_eq unit (codes "h")
    then of_seconds n 3600
    else err (unknown_unit unit)

unfoldable pub parse : Text → Result ParseError ℕ
unfolding with_unit
parse text = do
  let s = trim text
  fail_if (is_empty s) empty
  let parts = split_digits s
  fail_if (is_empty parts.1) missing_unit
  fail_if (is_empty parts.0) missing_number
  n ← ok_or (parse_u64 0 parts.0) overflow
  with_unit n (trim parts.1)
