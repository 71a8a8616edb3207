-- ===== src/Process/View.antt =====
-- `render_upstreams` of crates/conduit/src/main.rs: the page that lists the upstreams. `HashMap::iter` gives
-- the entries in any order, so the entries are an argument in the order that it happens to give.
pub mod Order
mod Tests
use ferroxy.Prelude.{
  ℕ, ◌+◌, ◌++◌, ◌&&◌, ◌||◌, ltb, leb, ◌==◌, Bool, true, false, List, [], ◌∷◌, if◌then◌else◌,
  is_empty,
}
use ferroxy.Prelude.Text.{Text, codes}
use ferroxy.Upstream.Breaker.{BreakerState, closed, open_, half_open}
use ferroxy.Upstream.Pool.{Upstream, SocketAddr, breaker_state}

abbrev pub Entry : Type 0
Entry = Text × Upstream

-- `str::cmp`, which compares bytes.
unfoldable pub text_le : Text → Text → Bool
text_le [] t = true
text_le (a ∷ s) [] = false
text_le (a ∷ s) (b ∷ t) = ltb a b || a == b && text_le s t

-- `entries.sort_by_key(|(name, _)| *name)`: a stable sort.
unfoldable pub insert_by_name : Entry → List Entry → List Entry
insert_by_name e [] = e ∷ []
insert_by_name e (f ∷ fs) =
    let rest = insert_by_name e fs in if text_le e.0 f.0 then e ∷ f ∷ fs else f ∷ rest

unfoldable pub sort_by_name : List Entry → List Entry
unfolding insert_by_name
sort_by_name [] = []
sort_by_name (e ∷ es) = insert_by_name e (sort_by_name es)

abbrev quoted : SocketAddr → Text
quoted a = codes "\"" ++ a ++ codes "\""

-- The loop over the addresses after the first.
abbrev pub more_addrs : List SocketAddr → Text
more_addrs [] = []
more_addrs (a ∷ as_) = codes "," ++ quoted a ++ more_addrs as_

abbrev pub joined_addrs : List SocketAddr → Text
joined_addrs [] = []
joined_addrs (a ∷ as_) = quoted a ++ more_addrs as_

abbrev state_name : BreakerState → Text
state_name closed = codes "closed"
state_name open_ = codes "open"
state_name half_open = codes "half_open"

unfoldable pub render_entry : ℕ → Entry → Text
render_entry now (name, u) =
    codes "upstream "
    ++ name
    ++ codes " addrs=["
    ++ joined_addrs u.addrs
    ++ codes "] breaker="
    ++ state_name (breaker_state u now)
    ++ codes "\n"

unfoldable pub render_entries : ℕ → List Entry → Text
unfolding render_entry
render_entries now [] = []
render_entries now (e ∷ es) = render_entry now e ++ render_entries now es

unfoldable pub render_upstreams : ℕ → List Entry → Text
unfolding render_entries sort_by_name
render_upstreams now entries =
    let out = render_entries now (sort_by_name entries) in
    if is_empty out then codes "(no upstreams)\n" else out
