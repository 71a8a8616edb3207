-- ===== src/Io/Socket.antt =====
-- crates/conduit-io/src/bind.rs: the system calls of `bind`, in order. `works` says which of them succeed, and
-- the calls that were made are listed, the last first.
mod Tests
use ferroxy.Prelude.{
  ℕ, ◌+◌, ◌<◌, ◌≡◌, refl, ◌⊎◌, inl, inr, Bool, true, false, Bool-cases, List, [], ◌∷◌, ltb, ltb→lt,
  lt→ltb, if◌then◌else◌, arith,
}
use ferroxy.Prelude.Text.{Text}

-- `Socket::new` with a domain for IPv4 or IPv6, and the calls on it.
pub data Call : Type 0 where
  socket : Bool → Call
  set_nonblocking set_reuse_address set_reuse_port : Call
  bind_to : Text → Call
  listen : ℕ → Call

-- An error of a call, or of `i32::try_from(backlog)`.
pub data Bound : Type 0 where
  listening : Bound
  call_failed : Call → Bound
  backlog_too_large : Bound

abbrev pub i32_limit : ℕ
i32_limit = 2147483648

module _ (works : Call → Bool) where
  -- A call with `?`, and what comes after it.
  abbrev try : Call → List Call → (List Call → Bound × List Call) → Bound × List Call
  try c made next = if works c then next (c ∷ made) else (call_failed c, c ∷ made)

  abbrev listen_on : ℕ → List Call → Bound × List Call
  listen_on backlog made =
      if ltb backlog i32_limit
      then try (listen backlog) made (λ made'. (listening, made'))
      else (backlog_too_large, made)

  -- `bind(2)` and what follows it.
  abbrev bind_and_listen : Text → ℕ → List Call → Bound × List Call
  bind_and_listen addr backlog made = try (bind_to addr) made (listen_on backlog)

  abbrev shared : Bool → Text → ℕ → List Call → Bound × List Call
  shared reuse_port addr backlog made =
      if reuse_port
      then try set_reuse_port made (bind_and_listen addr backlog)
      else bind_and_listen addr backlog made

  unfoldable pub bind : Bool → Text → ℕ → Bool → Bound × List Call
  bind is_ipv4 addr backlog reuse_port = try (socket is_ipv4) [] (λ made.
      try set_nonblocking made
        (λ made'. try set_reuse_address made' (shared reuse_port addr backlog)))

  -- A socket that listens shares its port, which was set before it was bound, and has the given backlog.
  pub bind-listening :
      (is_ipv4 : Bool) (addr : Text) (backlog : ℕ)
      → (bind is_ipv4 addr backlog true).0 ≡ listening
      → (backlog < i32_limit)
        × ((bind is_ipv4 addr backlog true).1
            ≡ listen backlog
              ∷ bind_to addr
              ∷ set_reuse_port
              ∷ set_reuse_address
              ∷ set_nonblocking
              ∷ socket is_ipv4
              ∷ [])
  unfolding bind
  bind-listening is_ipv4 addr backlog h = ground arith
