-- ===== src/Io/Socket/Tests.antt =====
-- Calls of `bind` of crates/conduit-io/src/bind.rs.
use ferroxy.Prelude.{◌≡◌, refl, Bool, true}
use ferroxy.Prelude.Text.{codes}
use ferroxy.Io.Socket.{Call, listening, backlog_too_large, bind}

abbrev all_work : Call → Bool
all_work c = true

listens : (bind all_work true (codes "a:80") 1024 true).0 ≡ listening
unfolding bind
listens = refl

-- A backlog that is too large is noticed only once the socket is bound.
too_large : (bind all_work true (codes "a:80") 4294967295 true).0 ≡ backlog_too_large
unfolding bind
too_large = refl
