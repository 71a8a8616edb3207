-- ===== src/Config/Duration/Tests.antt =====
-- The unit tests of crates/conduit-config/src/duration.rs, run in the model.
use ferroxy.Prelude.{◌≡◌, refl, ◌*◌, All, true, ◌&&◌, ltb, u64_mod, if◌then◌else◌}
use ferroxy.Config.Duration.Decimal.{value, mins, scale, nanos, parse-written}
use ferroxy.Prelude.Text.{codes, text_eq}
use ferroxy.Prelude.Result.{ok, err}
use ferroxy.Config.Duration.{
  parse, is_digit, trim, split_digits, parse_u64, empty, missing_unit, missing_number, overflow,
  unknown_unit,
}

ms : parse (codes "100ms") ≡ ok (100 * 1_000_000)
unfolding parse trim split_digits parse_u64 text_eq
ms = refl

hours : parse (codes "2h") ≡ ok (7_200 * 1_000_000_000)
unfolding parse trim split_digits parse_u64 text_eq
hours = refl

whitespace_tolerated : parse (codes " 5 s ") ≡ ok (5 * 1_000_000_000)
unfolding parse trim split_digits parse_u64 text_eq
whitespace_tolerated = refl

rejects_empty : parse (codes "") ≡ err empty
unfolding parse trim split_digits parse_u64 text_eq
rejects_empty = refl

rejects_no_unit : parse (codes "5") ≡ err missing_unit
unfolding parse trim split_digits parse_u64 text_eq
rejects_no_unit = refl

rejects_no_number : parse (codes "s") ≡ err missing_number
unfolding parse trim split_digits parse_u64 text_eq
rejects_no_number = refl

rejects_unknown_unit : parse (codes "5x") ≡ err (unknown_unit (codes "x"))
unfolding parse trim split_digits parse_u64 text_eq
rejects_unknown_unit = refl

rejects_overflow : parse (codes "18446744073709551615h") ≡ err overflow
unfolding parse trim split_digits parse_u64 text_eq
rejects_overflow = refl

ninety_digits : All (λ d. is_digit d ≡ true) (codes "90")
ninety_digits = (refl, (refl, tt))

parse-written_example : parse (codes "90m") ≡ (
    if ltb (value 0 (codes "90")) u64_mod && ltb (value 0 (codes "90") * scale mins) u64_mod
    then ok (value 0 (codes "90") * nanos mins)
    else err overflow)
parse-written_example = parse-written b'9' (codes "0") mins ninety_digits
