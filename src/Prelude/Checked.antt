-- ===== src/Prelude/Checked.antt =====
-- Code that may panic: on an index out of bounds or an `expect` that fails.
use mathlib.Core.Option.{Option, none, some}

pub data Checked {ℓ} (A : Type ℓ) : Type ℓ where
  panic : Checked A
  done : A → Checked A

infixl 5 ◌>>=◌
abbrev pub ◌>>=◌ {ℓ κ} : {A : Type ℓ} {B : Type κ} → Checked A → (A → Checked B) → Checked B
panic >>= f = panic
done a >>= f = f a

-- `v[i]` and `o.expect(…)`
abbrev pub expect {ℓ} : {A : Type ℓ} → Option A → Checked A
expect none = panic
expect (some a) = done a
