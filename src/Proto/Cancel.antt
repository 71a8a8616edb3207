-- ===== src/Proto/Cancel.antt =====
-- `Cancellation` of crates/conduit-proto/src/cancel.rs. The flags stand in a store, and a token is the place
-- of its flag, which its clones share.
use ferroxy.Prelude.{
  ℕ, ◌<◌, ◌≡◌, ◌≢◌, refl, ◌∙◌, sym, ap, ◌==◌, ◌||◌, Bool, true, false, List, [], ◌∷◌, ◌++◌, none,
  some, length, get_elem?, set, get_elem?-set_self, get_elem?-set_ne, if◌then◌else◌, arith,
  Bool-cases, inl, inr,
}
use ferroxy.Prelude.Result.{Result, ok, err}

abbrev pub Flags : Type 0
Flags = List Bool

pub record Cancellation : Type 0 where
  pub flag : ℕ

pub data CancellationError : Type 0 where
  cancelled : CancellationError

unfoldable pub new_token : Flags → Cancellation × Flags
new_token flags = (record { flag = length flags }, flags ++ false ∷ [])

-- The derived `Clone`.
abbrev pub clone : Cancellation → Cancellation
clone t = t

unfoldable pub is_cancelled : Flags → Cancellation → Bool
is_cancelled flags t = elim (get_elem? flags t.flag) [ none ↦ false | some b ↦ b ]

unfoldable pub cancel : Flags → Cancellation → Flags
cancel flags t = set flags t.flag true

unfoldable pub check_token : Flags → Cancellation → Result CancellationError (Unit {0})
unfolding is_cancelled
check_token flags t = if is_cancelled flags t then err cancelled else ok tt

-- Cancelling a token that exists cancels it and its clones for good, and no other token.
pub is_cancelled-cancel :
    (flags : Flags) (t u : Cancellation)
    → t.flag < length flags
    → is_cancelled (cancel flags t) u ≡ (t.flag == u.flag || is_cancelled flags u)
unfolding is_cancelled cancel
is_cancelled-cancel flags t u h = elim (Bool-cases (t.flag == u.flag)) [
  | inl e ↦
      let q : t.flag ≡ u.flag = ground arith in
      let s : get_elem? (set flags t.flag true) u.flag ≡ some true =
        ap (λ i. get_elem? (set flags t.flag true) i) (sym q)
        ∙ get_elem?-set_self flags t.flag true h in
      rw (s, e, is_cancelled, cancel) refl
  | inr e ↦
      let q : t.flag ≢ u.flag = λ p. ground (arith, p) in
      rw (get_elem?-set_ne flags t.flag u.flag true q, e, is_cancelled, cancel) refl
]
