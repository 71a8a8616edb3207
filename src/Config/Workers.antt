-- ===== src/Config/Workers.antt =====
-- crates/conduit-config/src/workers.rs: the three visitors of the deserializer. A signed integer is its
-- sign and its magnitude, and a `usize` has 64 bits.
use ferroxy.Prelude.{ℕ, ltb, ◌==◌, if◌then◌else◌, Option, none, some, u64_mod}
use ferroxy.Prelude.Text.{Text, text_eq, codes}

pub data Workers : Type 0 where
  auto : Workers
  count : ℕ → Workers

-- `i64`: `minus n` is -(n + 1).
pub data Int64 : Type 0 where
  plus : ℕ → Int64
  minus : ℕ → Int64

-- `usize::try_from(n).ok().and_then(NonZeroUsize::new)`
abbrev non_zero : ℕ → Option Workers
non_zero n = if ltb n u64_mod then (if n == 0 then none else some (count n)) else none

unfoldable pub visit_str : Text → Option Workers
visit_str s = if text_eq s (codes "auto") then some auto else none

unfoldable pub visit_i64 : Int64 → Option Workers
visit_i64 (minus n) = none
visit_i64 (plus n) = if n == 0 then none else non_zero n

unfoldable pub visit_u64 : ℕ → Option Workers
visit_u64 n = non_zero n
