-- ===== src/Io/Bind/Tests.antt =====
-- Two workers on two listeners, one of them on a free port.
use ferroxy.Prelude.{ℕ, ◌≡◌, refl, [], ◌∷◌, Option, some, if◌then◌else◌}
use ferroxy.Prelude.Text.{Text, codes, text_eq}
use ferroxy.Prelude.Result.{ok}
use ferroxy.Io.Bind.{ServeSpec, new, serve_bound, bind_all, bind_rest}
use ferroxy.Io.Bind.Shards.{sharded}

abbrev spec : ServeSpec
spec = new (codes "0.0.0.0:0" ∷ codes "0.0.0.0:80" ∷ []) 2

-- The system picks the port 4000 for port 0.
abbrev bind : ℕ → Text → Option Text
bind k addr = some (if text_eq addr (codes "0.0.0.0:0") then codes "0.0.0.0:4000" else addr)

same_port : serve_bound bind spec ≡ ok (sharded 2 (codes "0.0.0.0:4000" ∷ codes "0.0.0.0:80" ∷ []))
unfolding serve_bound bind_all bind_rest text_eq
same_port = refl
