-- ===== src/Proto/Body/Tests.antt =====
-- Bodies in memory, on concrete chunks.
use ferroxy.Prelude.{◌≡◌, refl, true, [], ◌∷◌, some}
use ferroxy.Prelude.Text.{Text, codes}
use ferroxy.Proto.Body.{VecBody, from_bytes, from_chunks, with_trailers, is_end_stream}

abbrev hello : VecBody Text
hello = record { chunks = codes "hel" ∷ codes "lo" ∷ []; trailers = some (codes "crc") }

built : with_trailers (from_chunks (codes "hel" ∷ codes "lo" ∷ [])) (codes "crc") ≡ hello
unfolding with_trailers from_chunks
built = refl

nothing_to_send : is_end_stream (from_bytes {T = Text} []) ≡ true
unfolding is_end_stream from_bytes
nothing_to_send = refl
