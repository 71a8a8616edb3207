-- ===== src/Prelude/Words.antt =====
-- Machine integers and `std::time::Duration`. A `u32`, `u64` or `usize` is a number with its range
-- stated where it matters; `usize` has 64 bits. A duration and an instant count nanoseconds.
use Prim.Native.Nat.{ℕ, ◌+◌, ◌*◌, ◌/◌}
use ferroxy.Prelude.Tests.{ltb, if◌then◌else◌}

abbrev pub u32_mod : ℕ
u32_mod = 4294967296

abbrev pub u64_mod : ℕ
u64_mod = 18446744073709551616

abbrev pub u32_max : ℕ
u32_max = 4294967295

abbrev pub u64_max : ℕ
u64_max = 18446744073709551615

-- `u32::saturating_add`
abbrev pub sat_add_u32 : ℕ → ℕ → ℕ
sat_add_u32 a b = if ltb (a + b) u32_mod then a + b else u32_max

-- `u64::saturating_add`
abbrev pub sat_add_u64 : ℕ → ℕ → ℕ
sat_add_u64 a b = if ltb (a + b) u64_mod then a + b else u64_max

-- `u64::try_from(n).unwrap_or(u64::MAX)`
abbrev pub clamp_u64 : ℕ → ℕ
clamp_u64 n = if ltb n u64_mod then n else u64_max

abbrev pub from_millis : ℕ → ℕ
from_millis n = n * 1_000_000

abbrev pub from_secs : ℕ → ℕ
from_secs n = n * 1_000_000_000

abbrev pub as_millis : ℕ → ℕ
as_millis d = d / 1_000_000

abbrev pub as_micros : ℕ → ℕ
as_micros d = d / 1_000
